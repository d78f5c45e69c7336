-- ===== src/Fiber/StoreLock.antt =====
-- src/fiber/store-lock.ts: whether a process holds the lock file of a node's store.
pub mod Laws
use offckb.Base.{
  ℕ, Bool, true, false, not, ◌||◌, Option, none, some, List, [], ◌∷◌, every, if◌then◌else◌, eqb,
}
use offckb.Base.Text.{Text, trim, is_empty}

-- What a rename of the file to itself does, on Windows.
pub data Rename : Type 0 where
  renamed not_permitted busy rename_failed : Rename

-- What the run of lsof does: it is missing, is stopped in time or by a signal, or exits.
pub data Lsof : Type 0 where
  printed : Text → Lsof
  missing timed_out signalled : Lsof
  exited : ℕ → Option Text → Lsof

pub record Inspection : Type 0 where
  pub exists : Bool
  pub is_windows : Bool
  pub rename : Rename
  pub lsof : Lsof

abbrev pub renamed_answer : Rename → Option Bool
renamed_answer renamed = some false
renamed_answer not_permitted = some true
renamed_answer busy = some true
renamed_answer rename_failed = none

-- Holders are printed, so a blank output means that there is none.
abbrev pub is_printed : Text → Bool
is_printed stdout = not (is_empty (trim stdout))

abbrev pub exit_answer : ℕ → Option Text → Option Bool
exit_answer status none = none
exit_answer status (some stdout) = if eqb status 1 then some (is_printed stdout) else none

abbrev pub lsof_answer : Lsof → Option Bool
lsof_answer (printed stdout) = some (is_printed stdout)
lsof_answer (exited status stdout) = exit_answer status stdout
lsof_answer _ = none

-- `isStoreLockHeld(lockFile)`, where `none` is `null`.
unfoldable pub is_store_lock_held : Inspection → Option Bool
is_store_lock_held x =
    if x.exists
    then (if x.is_windows then renamed_answer x.rename else lsof_answer x.lsof)
    else some false

abbrev pub is_free : Option Bool → Bool
is_free (some false) = true
is_free _ = false

-- `waitForStoreLocksReleased`: the rounds until the time is over, each with all lock files.
unfoldable pub wait_for_store_locks_released : List (List Inspection) → Bool
unfolding is_store_lock_held
wait_for_store_locks_released [] = false
wait_for_store_locks_released (round ∷ rounds) =
    every (λ x. is_free (is_store_lock_held x)) round || wait_for_store_locks_released rounds
