-- ===== src/Fiber/Stop/Records.antt =====
-- The records that a stop removes, and the guard of a stop of the node.
use offckb.Base.{
  ℕ, ◌≡◌, ◌⊎◌, Bool, true, false, Option, none, some, List, eqb_iff, nat_eq, any, ◌↔◌, arith,
}
use offckb.Fiber.Stop.{
  Record, Effect, Outcome, stopped, orphan_check, Answers, Environment, fiber_pid_file,
  node_pid_file, runtime_file, signal, remove, live_runtime, stop_manager_and_cleanup,
  assert_node_stop_does_not_orphan_fiber,
}

same_record : Record → Record → Bool
same_record fiber_pid_file fiber_pid_file = true
same_record node_pid_file node_pid_file = true
same_record runtime_file runtime_file = true
same_record _ _ = false

is_removal : Record → Effect → Bool
is_removal r (remove q) = same_record r q
is_removal r (signal _ _) = false

-- The record is among those that are removed.
pub removes : Record → List Effect → Bool
removes r effects = any (is_removal r) effects

pub is_stopped : Outcome → Bool
is_stopped (stopped _) = true
is_stopped _ = false

-- A manager whose end is confirmed by the last check loses its PID file and the runtime record, and
-- the outcome says so. In each other case, also when a wait or a signal fails, both records stay.
pub stop_manager_and_cleanup-records :
    (a : Answers) (pid : ℕ) (file : Record)
    → (removes file (stop_manager_and_cleanup a pid file).0
        ≡ is_stopped (stop_manager_and_cleanup a pid file).1)
      × (removes runtime_file (stop_manager_and_cleanup a pid file).0
          ≡ is_stopped (stop_manager_and_cleanup a pid file).1)
      × ((is_stopped (stop_manager_and_cleanup a pid file).1 ≡ true) → a.alive_at_last ≡ some false)
unfolding stop_manager_and_cleanup removes is_removal same_record is_stopped
stop_manager_and_cleanup-records a pid fiber_pid_file = ground arith
stop_manager_and_cleanup-records a pid node_pid_file = ground arith
stop_manager_and_cleanup-records a pid runtime_file = ground arith

orphan_check_iff :
    (e : Environment) (ckb_daemon_pid : ℕ) (force : Bool) (manager : Option ℕ)
    → (orphan_check ckb_daemon_pid force (live_runtime e manager) ≡ none)
      ↔ ((live_runtime e manager ≡ none) ⊎ (manager ≡ some ckb_daemon_pid) ⊎ (force ≡ true))
orphan_check_iff e ckb_daemon_pid force none = ground arith
orphan_check_iff e ckb_daemon_pid force (some m) = ground (arith, eqb_iff m ckb_daemon_pid)

-- The stop of the node goes on exactly when no process that may be alive manages the nodes, or it
-- is the daemon that is being stopped, or the stop is forced.
pub assert_node_stop_iff :
    (e : Environment) (ckb_daemon_pid : ℕ) (force : Bool)
    → (assert_node_stop_does_not_orphan_fiber e ckb_daemon_pid force ≡ none)
      ↔ ((live_runtime e e.manager ≡ none) ⊎ (e.manager ≡ some ckb_daemon_pid) ⊎ (force ≡ true))
unfolding assert_node_stop_does_not_orphan_fiber
assert_node_stop_iff e ckb_daemon_pid force = orphan_check_iff e ckb_daemon_pid force e.manager
