-- ===== src/Fiber/Start.antt =====
-- `startFiberDaemon` and `failFiberDaemonStartup` of src/fiber/daemon.ts. What the system answers is
-- input. The PID file is what `readPidFile` makes of it; a write that fails leaves something there.
-- The error event of a child that was spawned, which removes the PID file, is left out.
pub mod Readiness
pub mod Records
use offckb.Base.{
  ℕ, zero, suc, Bool, true, false, not, ◌&&◌, Option, none, some, List, [], ◌∷◌, ◌++◌,
  if◌then◌else◌, ◌==◌, nat_eq, text_eq, leb,
}
use offckb.Base.Text.{Text, text}
use offckb.Value.{pos, Number, integer, Value, str}
use offckb.Fiber.EnvLock.{Signal}
use offckb.Fiber.Stop.{Termination, sigterm, sigkill}
use offckb.Daemon.PidFiles.{
  Platform, PidMetadata, Opening, opened, file_exists, open_failed, resolve_cli_entry,
  is_alive_number,
}
use offckb.Daemon.Processes.{ProcessInfo}
use offckb.Daemon.Identity.{verify_daemon_identity}

-- `runtime.json` as `readRuntime` gives it, without the nodes.
pub record Runtime : Type 0 where
  pub manager_pid : ℕ
  pub is_running : Bool

-- One round of the wait for the child. `none` of a check is an exception.
pub record Poll : Type 0 where
  pub alive : Option Bool
  pub runtime : Option Runtime

pub data Ready : Type 0 where
  ready child_exited timed_out check_threw : Ready

abbrev pub reports : ℕ → Option Runtime → Bool
reports child none = false
reports child (some r) = r.manager_pid == child && r.is_running

module _ (polls : ℕ → Poll) (elapsed : ℕ → ℕ) (timeout : ℕ) (child : ℕ) where
  -- The loop, where the fuel is the rounds that may follow, and `none` is fuel that ran out.
  unfoldable pub await_ready : ℕ → ℕ → Option Ready
  await_ready zero i = none
  await_ready (suc fuel) i = elim (leb timeout (elapsed i)) [
    | true ↦ some timed_out
    | false ↦ elim ((polls i).alive) [
      | none ↦ some check_threw
      | some false ↦ some child_exited
      | some true ↦ elim (reports child (polls i).runtime) [
        | true ↦ some ready
        | false ↦ await_ready fuel (suc i)
      ]
    ]
  ]

-- What `failFiberDaemonStartup` meets; `none` is an exception.
pub record FailAnswers : Type 0 where
  pub alive_first : Option Bool
  pub term_sent : Bool
  pub exited_term : Option Bool
  pub kill_sent : Bool
  pub exited_kill : Option Bool
  pub alive_last : Option Bool

pub record Sent : Type 0 where
  pub termination : Termination
  pub target : ℕ

-- The `catch` block.
abbrev pub recheck : Option Bool → Bool
recheck none = false
recheck (some alive) = not alive

abbrev pub or_recheck : FailAnswers → Option Bool → Bool
or_recheck a none = recheck a.alive_last
or_recheck a (some exited) = exited

abbrev pub kill_round : FailAnswers → ℕ → List Sent × Bool
kill_round a child = (
  record { termination = sigkill; target = child } ∷ [],
  if a.kill_sent then or_recheck a a.exited_kill else recheck a.alive_last,
)

abbrev pub after_term : FailAnswers → ℕ → Option Bool → List Sent × Bool
after_term a child none = ([], recheck a.alive_last)
after_term a child (some true) = ([], true)
after_term a child (some false) = kill_round a child

abbrev pub prepend : Sent → List Sent × Bool → List Sent × Bool
prepend s (more, exited) = (s ∷ more, exited)

abbrev pub term_round : FailAnswers → ℕ → List Sent × Bool
term_round a child =
    prepend (record { termination = sigterm; target = child })
      (if a.term_sent then after_term a child a.exited_term else ([], recheck a.alive_last))

abbrev pub fail_steps : FailAnswers → ℕ → Option Bool → List Sent × Bool
fail_steps a child none = ([], recheck a.alive_last)
fail_steps a child (some true) = term_round a child
fail_steps a child (some false) = ([], true)

-- The signals that are sent, and whether the child is known to have exited.
unfoldable pub fail_fiber_daemon_startup : FailAnswers → ℕ → List Sent × Bool
fail_fiber_daemon_startup a child = fail_steps a child a.alive_first

pub data Spawn : Type 0 where
  spawn_failed no_pid : Spawn
  spawned : ℕ → Spawn

pub data StartError : Type 0 where
  startup_in_progress already_running not_our_daemon check_failed no_cli_entry : StartError
  reserve_failed initialize_failed log_failed spawn_threw no_child_pid metadata_failed : StartError
  exited_before_ready ready_timeout child_check_failed running_mark_failed : StartError

pub data Outcome : Type 0 where
  started : ℕ → Outcome
  failed : StartError → Outcome

pub record Inputs : Type 0 where
  pub existing : Option PidMetadata
  pub signals : ℕ → Signal
  pub info : Option ProcessInfo
  pub own_pid : ℕ
  pub reserved_at : Value
  pub spawned_at : Value
  pub opening : Opening
  pub reservation_written : Bool
  pub logs_opened : Bool
  pub spawn : Spawn
  pub metadata_written : Bool
  pub running_written : Bool
  pub left_by_failed_write : PidMetadata
  pub removable : Bool
  pub fail_answers : FailAnswers

-- The PID file in the end, the child that was spawned, the signals, and the outcome.
pub record Start : Type 0 where
  pub file : Option PidMetadata
  pub child : Option ℕ
  pub sent : List Sent
  pub outcome : Outcome

abbrev pub stop_here : Option PidMetadata → StartError → Start
stop_here file e = record { file = file; child = none; sent = []; outcome = failed e }

abbrev pub claim : ℕ → Text → Value → Text → PidMetadata
claim pid script at status = record {
  pid = integer (pos pid);
  script_path = script;
  started_at = at;
  status = some (str status);
}

-- `cleanupPidFile`, where a file that cannot be removed stays.
abbrev pub cleaned : Inputs → PidMetadata → Option PidMetadata
cleaned n m = if n.removable then none else some m

abbrev pub after_failure : Inputs → PidMetadata → ℕ → StartError → List Sent × Bool → Start
after_failure n m child e (sent, exited) = record {
  file = if exited then cleaned n m else some m;
  child = some child;
  sent = sent;
  outcome = failed e;
}

abbrev pub fail_startup : Inputs → PidMetadata → ℕ → StartError → Start
fail_startup n m child e =
    after_failure n m child e (fail_fiber_daemon_startup n.fail_answers child)

abbrev pub leave : PidMetadata → ℕ → Outcome → Start
leave m child outcome = record { file = some m; child = some child; sent = []; outcome = outcome }

abbrev pub mark_running : Inputs → Text → ℕ → Start
mark_running n script child =
    if n.running_written
    then leave (claim child script n.spawned_at (text "running")) child (started child)
    else leave n.left_by_failed_write child (failed running_mark_failed)

-- After the loop, from the record that is in the file.
abbrev pub after_wait : Inputs → Text → ℕ → Ready → Start
after_wait n script child ready = mark_running n script child
after_wait n script child child_exited =
    fail_startup n (claim child script n.spawned_at (text "starting")) child exited_before_ready
after_wait n script child timed_out =
    fail_startup n (claim child script n.spawned_at (text "starting")) child ready_timeout
after_wait n script child check_threw =
    leave (claim child script n.spawned_at (text "starting")) child (failed child_check_failed)

abbrev pub optional_wait : Inputs → Text → ℕ → Option Ready → Option Start
optional_wait n script child none = none
optional_wait n script child (some r) = some (after_wait n script child r)

abbrev pub after_spawn : Inputs → Text → (ℕ → Option Ready) → Spawn → Option Start
after_spawn n script wait spawn_failed =
    some
      (stop_here (cleaned n (claim n.own_pid script n.reserved_at (text "starting"))) spawn_threw)
after_spawn n script wait no_pid =
    some
      (stop_here (cleaned n (claim n.own_pid script n.reserved_at (text "starting"))) no_child_pid)
after_spawn n script wait (spawned child) =
    if n.metadata_written
    then optional_wait n script child (wait child)
    else some (fail_startup n n.left_by_failed_write child metadata_failed)

abbrev pub after_reserve : Inputs → Text → (ℕ → Option Ready) → Option Start
after_reserve n script wait =
    if n.logs_opened
    then after_spawn n script wait n.spawn
    else some
        (stop_here (cleaned n (claim n.own_pid script n.reserved_at (text "starting"))) log_failed)

-- `reservePidFile`: `wx` fails on a file that is there, also one that could not be removed.
abbrev pub reserve :
    Inputs → Option PidMetadata → Text → (ℕ → Option Ready) → Opening → Option Start
reserve n (some m) script wait opening = some (stop_here (some m) startup_in_progress)
reserve n none script wait file_exists =
    some (stop_here (some n.left_by_failed_write) startup_in_progress)
reserve n none script wait open_failed = some (stop_here none reserve_failed)
reserve n none script wait opened =
    if n.reservation_written
    then after_reserve n script wait
    else some (stop_here (cleaned n n.left_by_failed_write) initialize_failed)

abbrev pub with_entry :
    Inputs → Option PidMetadata → (ℕ → Option Ready) → Option Text → Option Start
with_entry n file wait none = some (stop_here file no_cli_entry)
with_entry n file wait (some script) = reserve n file script wait n.opening

-- `existing.status === 'starting'`
abbrev pub is_starting : Option Value → Bool
is_starting (some (str s)) = s == text "starting"
is_starting _ = false

abbrev pub refuse_existing : Platform → Inputs → PidMetadata → StartError
refuse_existing p n m =
    if verify_daemon_identity p n.info m
    then (if is_starting m.status then startup_in_progress else already_running)
    else not_our_daemon

abbrev pub with_existing :
    Platform → Inputs → (ℕ → Option Ready) → PidMetadata → Option Bool → Option Start
with_existing p n wait m none = some (stop_here (some m) check_failed)
with_existing p n wait m (some true) = some (stop_here (some m) (refuse_existing p n m))
with_existing p n wait m (some false) = with_entry n (cleaned n m) wait (resolve_cli_entry p)

abbrev pub start_from : Platform → Inputs → (ℕ → Option Ready) → Option PidMetadata → Option Start
start_from p n wait none = with_entry n none wait (resolve_cli_entry p)
start_from p n wait (some m) = with_existing p n wait m (is_alive_number n.signals m.pid)

-- `none` is a wait for the child that does not end. A child is awaited by the loop, given here.
unfoldable pub start_fiber_daemon : Platform → Inputs → (ℕ → Option Ready) → Option Start
unfolding fail_fiber_daemon_startup
start_fiber_daemon p n wait = start_from p n wait n.existing
