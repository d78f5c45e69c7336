-- ===== src/Fiber/Clean.antt =====
-- src/fiber/clean.ts: when the data of a Fiber environment may be deleted. Time passes while a user
-- is asked, so each check has a snapshot of its own.
pub mod Laws
use offckb.Base.{
  ℕ, Bool, true, false, not, ◌&&◌, Option, none, some, List, [], ◌∷◌, ◌++◌, map, filter,
  if◌then◌else◌, Result, ok, err, ◌>>=◌, ◌>>◌, guard,
}
use offckb.Base.Text.{Text}
use offckb.Fiber.EnvLock.{Signal, is_process_alive}
use offckb.Fiber.Stop.{is_gone}
use offckb.Fiber.StoreLock.{Inspection, is_store_lock_held, is_free}
use offckb.Daemon.PidFiles.{PidMetadata, positive, is_alive_number}

-- The manager of `runtime.json`, the PID file of the Fiber daemon, and the lock files that exist.
pub record Snapshot : Type 0 where
  pub manager : Option ℕ
  pub daemon : Option PidMetadata
  pub signals : ℕ → Signal
  pub store_locks : List Inspection

pub data CleanError : Type 0 where
  locked aborted daemon_check_failed stores_held : CleanError
  still_managed : ℕ → CleanError
  daemon_running : CleanError

-- `readLiveRuntime` finds no manager that may be alive.
abbrev pub no_manager : (ℕ → Signal) → Option ℕ → Result CleanError (Unit {0})
no_manager signals none = ok tt
no_manager signals (some pid) =
    if is_gone (is_process_alive signals pid) then ok tt else err (still_managed pid)

abbrev pub daemon_gone : Option Bool → Result CleanError (Unit {0})
daemon_gone none = err daemon_check_failed
daemon_gone (some true) = err daemon_running
daemon_gone (some false) = ok tt

abbrev pub no_daemon : (ℕ → Signal) → Option PidMetadata → Result CleanError (Unit {0})
no_daemon signals none = ok tt
no_daemon signals (some m) = daemon_gone (is_alive_number signals m.pid)

abbrev pub held_locks : List Inspection → List Inspection
held_locks = filter (λ x. not (is_free (is_store_lock_held x)))

abbrev pub none_held : List Inspection → Result CleanError (Unit {0})
none_held [] = ok tt
none_held (_ ∷ _) = err stores_held

-- `assertFiberFullyStopped`
unfoldable pub assert_fiber_fully_stopped : Snapshot → Result CleanError (Unit {0})
unfolding is_process_alive is_store_lock_held
assert_fiber_fully_stopped s = do
  no_manager s.signals s.manager
  no_daemon s.signals s.daemon
  none_held (held_locks s.store_locks)

pub data Effect : Type 0 where
  delete_tree : Text → Effect
  acquire remove_runtime_if_stale release : Effect

pub record Inputs : Type 0 where
  pub data_only : Bool
  pub yes' : Bool
  pub lock_acquired : Bool
  pub root : Text
  pub root_exists : Bool
  pub stores : List Text
  pub before : Snapshot
  pub confirmed : Bool
  pub after : Snapshot

-- `confirmOrAbort`
abbrev pub confirm_or_abort : Inputs → Result CleanError (Unit {0})
confirm_or_abort n = if n.yes' then ok tt else if n.confirmed then ok tt else err aborted

-- What is deleted once all is checked.
abbrev pub deletions : Inputs → List Effect
deletions n =
    if n.data_only
    then remove_runtime_if_stale ∷ map delete_tree n.stores
    else delete_tree n.root ∷ []

-- The body of `try`.
unfoldable pub clean_locked : Inputs → Result CleanError (List Effect)
unfolding assert_fiber_fully_stopped
clean_locked n =
    if n.root_exists
    then (do
      assert_fiber_fully_stopped n.before
      confirm_or_abort n
      assert_fiber_fully_stopped n.after
      ok (deletions n))
    else ok []

-- The lock is taken before the `try`, and given back by its `finally`.
abbrev pub with_release : Result CleanError (List Effect) → List Effect × Option CleanError
with_release (ok effects) = (acquire ∷ effects ++ (release ∷ []), none)
with_release (err e) = (acquire ∷ release ∷ [], some e)

-- `fiberClean`: the effects in order, and the error.
unfoldable pub fiber_clean : Inputs → List Effect × Option CleanError
unfolding clean_locked
fiber_clean n = if n.lock_acquired then with_release (clean_locked n) else ([], some locked)
