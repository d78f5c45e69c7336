-- ===== src/Fiber/Stop.antt =====
-- How a Fiber environment is stopped: `stopFiber`, `stopManagerAndCleanup` and
-- `assertNodeStopDoesNotOrphanFiber` of src/fiber/daemon.ts, with the liveness rules of
-- src/fiber/runtime.ts. What the system answers to a check or a signal is part of the input, one
-- answer for each question in the order in which it is asked; what the program does is a list of
-- effects.
pub mod Safety
pub mod Records
use offckb.Base.{
  ℕ, zero, suc, Bool, true, false, not, ◌&&◌, ◌||◌, Option, none, some, List, [], ◌∷◌, ◌++◌,
  if◌then◌else◌, eqb, ◌==◌, nat_eq,
}

pub data Termination : Type 0 where
  sigterm sigkill : Termination

pub data Record : Type 0 where
  fiber_pid_file node_pid_file runtime_file : Record

pub data Effect : Type 0 where
  signal : Termination → ℕ → Effect
  remove : Record → Effect

pub data StopError : Type 0 where
  check_failed signal_failed wait_failed startup_in_progress not_our_daemon : ℕ → StopError
  orphans_fiber : ℕ → StopError

pub data Outcome : Type 0 where
  stopped unconfirmed foreground : ℕ → Outcome
  stale_runtime not_running : Outcome
  thrown : StopError → Outcome

-- `PidMetadata`, where the number is `none` for the sentinel of a file that is not valid.
pub record PidMetadata : Type 0 where
  pub pid : Option ℕ
  pub is_starting : Bool
  pub within_startup_window : Bool

-- What a stop of one process meets. `none` is an exception.
pub record Answers : Type 0 where
  pub term_sent : Bool
  pub exited : Option Bool
  pub locks_released : Bool
  pub exited_after_kill : Option Bool
  pub alive_at_last : Option Bool

-- `is_alive` answers the checks that come before the first signal.
pub record Environment : Type 0 where
  pub fiber_daemon : Option PidMetadata
  pub node_daemon : Option PidMetadata
  pub manager : Option ℕ
  pub is_alive : ℕ → Option Bool
  pub is_identified : ℕ → Bool
  pub answers : Answers

-- `isRuntimeStale`: a check that fails counts as alive.
abbrev pub is_gone : Option Bool → Bool
is_gone (some alive) = not alive
is_gone none = false

abbrev pub live_runtime : Environment → Option ℕ → Option ℕ
live_runtime e none = none
live_runtime e (some pid) = if is_gone (e.is_alive pid) then none else some pid

-- The end of `stopManagerAndCleanup`: the records go when the manager is gone.
abbrev pub cleaned_up : ℕ → Record → Option Bool → List Effect × Outcome
cleaned_up pid pid_file alive =
    if is_gone alive
    then (remove pid_file ∷ remove runtime_file ∷ [], stopped pid)
    else ([], unconfirmed pid)

abbrev pub after_effects : List Effect → List Effect × Outcome → List Effect × Outcome
after_effects effects (more, outcome) = (effects ++ more, outcome)

abbrev pub after_kill : Answers → ℕ → Record → Option Bool → List Effect × Outcome
after_kill a pid pid_file none = ([], thrown (wait_failed pid))
after_kill a pid pid_file (some _) = cleaned_up pid pid_file a.alive_at_last

abbrev pub after_wait : Answers → ℕ → Record → Option Bool → List Effect × Outcome
after_wait a pid pid_file none = ([], thrown (wait_failed pid))
after_wait a pid pid_file (some exited) =
    if exited && a.locks_released
    then cleaned_up pid pid_file a.alive_at_last
    else after_effects (signal sigkill pid ∷ []) (after_kill a pid pid_file a.exited_after_kill)

unfoldable pub stop_manager_and_cleanup : Answers → ℕ → Record → List Effect × Outcome
stop_manager_and_cleanup a pid pid_file =
    after_effects (signal sigterm pid ∷ [])
      (if a.term_sent then after_wait a pid pid_file a.exited else ([], thrown (signal_failed pid)))

abbrev pub stop_identified : Environment → ℕ → Record → List Effect × Outcome
stop_identified e pid pid_file =
    if e.is_identified pid
    then stop_manager_and_cleanup e.answers pid pid_file
    else ([], thrown (not_our_daemon pid))

-- Without a live runtime record.
abbrev pub without_runtime : Environment → Option ℕ → List Effect × Outcome
without_runtime e none = ([], not_running)
without_runtime e (some pid) =
    if is_gone (e.is_alive pid)
    then (remove runtime_file ∷ [], stale_runtime)
    else ([], not_running)

abbrev pub stop_node_daemon : Environment → ℕ → Option Bool → List Effect × Outcome
stop_node_daemon e manager none = ([], thrown (check_failed manager))
stop_node_daemon e manager (some true) = stop_identified e manager node_pid_file
stop_node_daemon e manager (some false) = ([], foreground manager)

abbrev pub is_manager : ℕ → Option PidMetadata → Bool
is_manager manager none = false
is_manager manager (some m) = elim m.pid [ none ↦ false | some pid ↦ pid == manager ]

abbrev pub stop_managed : Environment → Option ℕ → List Effect × Outcome
stop_managed e none = without_runtime e e.manager
stop_managed e (some manager) =
    if is_manager manager e.node_daemon
    then stop_node_daemon e manager (e.is_alive manager)
    else ([], foreground manager)

-- The second half of `stopFiber`, where no fiber daemon is left.
unfoldable pub stop_runtime : Environment → List Effect × Outcome
unfolding stop_manager_and_cleanup
stop_runtime e = stop_managed e (live_runtime e e.manager)

abbrev pub stop_fiber_daemon : Environment → PidMetadata → ℕ → Option Bool → List Effect × Outcome
stop_fiber_daemon e daemon pid none = ([], thrown (check_failed pid))
stop_fiber_daemon e daemon pid (some true) =
    if daemon.is_starting && daemon.within_startup_window
    then ([], thrown (startup_in_progress pid))
    else stop_identified e pid fiber_pid_file
stop_fiber_daemon e daemon pid (some false) =
    after_effects (remove fiber_pid_file ∷ []) (stop_runtime e)

abbrev pub stop_recorded : Environment → PidMetadata → Option ℕ → List Effect × Outcome
stop_recorded e daemon none = after_effects (remove fiber_pid_file ∷ []) (stop_runtime e)
stop_recorded e daemon (some pid) = stop_fiber_daemon e daemon pid (e.is_alive pid)

abbrev pub stop_found : Environment → Option PidMetadata → List Effect × Outcome
stop_found e none = stop_runtime e
stop_found e (some daemon) = stop_recorded e daemon daemon.pid

unfoldable pub stop_fiber : Environment → List Effect × Outcome
unfolding stop_runtime
stop_fiber e = stop_found e e.fiber_daemon

-- `assertNodeStopDoesNotOrphanFiber`: `none` lets the stop of the node go on.
abbrev pub orphan_check : ℕ → Bool → Option ℕ → Option StopError
orphan_check ckb_daemon_pid force none = none
orphan_check ckb_daemon_pid force (some manager) =
    if manager == ckb_daemon_pid || force then none else some (orphans_fiber manager)

unfoldable pub assert_node_stop_does_not_orphan_fiber : Environment → ℕ → Bool → Option StopError
assert_node_stop_does_not_orphan_fiber e ckb_daemon_pid force =
    orphan_check ckb_daemon_pid force (live_runtime e e.manager)
