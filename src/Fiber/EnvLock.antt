-- ===== src/Fiber/EnvLock.antt =====
-- src/fiber/env-lock.ts, on one lock file. The file system is what stands at the path of the lock,
-- the contents of its inodes, and what a signal 0 to each process meets. A descriptor stays open
-- on its inode when another process unlinks the path. A call fails only as the lock file that is
-- there or missing makes it fail.
pub mod Laws
pub mod Exclusion
pub mod Race
use offckb.Base.{
  ℕ, zero, suc, ◌≡◌, refl, Bool, true, false, not, ◌&&◌, Option, none, some, if◌then◌else◌, eqb,
  List, [], ◌==◌, nat_eq, Result, ok, err,
}
use offckb.Base.Text.{Text, text}
use offckb.Value.{pos, integer, Value, num, str, null, obj, end, field}
use offckb.Value.Paths.{get_key}

-- `JSON`, with `String(value)` for a value that is no text.
pub record Json : Type 0 where
  pub parse : Text → Option Value
  pub print : Value → Text
  pub to_text : Value → Text

-- What `process.kill(pid, 0)` does.
pub data Signal : Type 0 where
  delivered no_process denied other_error : Signal

-- `isProcessAlive(pid)` of src/util/daemon.ts, where `none` is an exception.
unfoldable pub is_process_alive : (ℕ → Signal) → ℕ → Option Bool
is_process_alive signals zero = some false
is_process_alive signals (suc n) = elim (signals (suc n)) [
  | delivered ↦ some true
  | no_process ↦ some false
  | denied ↦ none
  | other_error ↦ none
]

pub record LockRecord : Type 0 where
  pub pid : ℕ
  pub acquired_at : Text

pub record World : Type 0 where
  pub path : Option ℕ
  pub content : ℕ → Text
  pub next : ℕ
  pub signals : ℕ → Signal
  pub now : Text

pub data LockError : Type 0 where
  another_process : LockRecord → LockError
  unlink_failed not_acquired : LockError

-- `Number.isInteger(pid) && pid > 0`
abbrev pub positive_integer : Option Value → Option ℕ
positive_integer (some (num (integer (pos (suc n))))) = some (suc n)
positive_integer _ = none

-- `String(parsed.acquiredAt ?? '')`
abbrev pub text_of : Json → Option Value → Text
text_of j (some (str s)) = s
text_of j (some null) = text ""
text_of j (some v) = j.to_text v
text_of j none = text ""

abbrev pub lock_record : Json → Value → Option LockRecord
lock_record j v = elim (positive_integer (get_key (text "pid") v)) [
  | none ↦ none
  | some n ↦ some (record { pid = n; acquired_at = text_of j (get_key (text "acquiredAt") v) })
]

abbrev pub parsed_record : Json → Option Value → Option LockRecord
parsed_record j none = none
parsed_record j (some v) = lock_record j v

abbrev pub content_at : World → Option ℕ → Option Text
content_at w none = none
content_at w (some i) = some (w.content i)

abbrev pub read_content : Json → Option Text → Option LockRecord
read_content j none = none
read_content j (some content) = parsed_record j (j.parse content)

unfoldable pub read_lock_record : Json → World → Option LockRecord
read_lock_record j w = read_content j (content_at w w.path)

-- `fs.openSync(lockFile, 'wx')`
abbrev pub created : World → World
created w = record w {
  path = some w.next;
  content = λ i. if i == w.next then [] else w.content i;
  next = suc w.next;
}

-- `fs.writeFileSync(fd, JSON.stringify(record))`
abbrev pub record_text : Json → ℕ → Text → Text
record_text j pid now =
    j.print
      (obj (field (text "pid") (num (integer (pos pid))) (field (text "acquiredAt") (str now) end)))

unfoldable pub write_record : Json → ℕ → ℕ → World → World
write_record j pid inode w = record w {
  content = λ i. if i == inode then record_text j pid w.now else w.content i;
}

-- `fs.unlinkSync(lockFile)`, where `none` is an exception.
abbrev pub unlink_at : World → Option ℕ → Option World
unlink_at w none = none
unlink_at w (some _) = some (record w { path = none })

abbrev pub unlink : World → Option World
unlink w = unlink_at w w.path

-- An exception of the check counts as alive.
abbrev pub assume_held : Option Bool → Bool
assume_held (some alive) = alive
assume_held none = true

-- The holder that a lock file names, if the lock is not stale.
unfoldable pub live_holder : World → Option LockRecord → Option LockRecord
unfolding is_process_alive
live_holder w none = none
live_holder w (some r) = if assume_held (is_process_alive w.signals r.pid) then some r else none

-- One attempt: after `unlinkSync` of a stale lock, `retry` goes on.
abbrev pub remove_stale : (World → Result LockError World) → Option World → Result LockError World
remove_stale retry none = err unlink_failed
remove_stale retry (some w) = retry w

abbrev pub after_read :
    (World → Result LockError World) → World → Option LockRecord → Result LockError World
after_read retry w (some r) = err (another_process r)
after_read retry w none = remove_stale retry (unlink w)

abbrev pub after_open :
    (World → Result LockError World) → Json → ℕ → World → Option ℕ → Result LockError World
after_open retry j pid w none = ok (write_record j pid w.next (created w))
after_open retry j pid w (some _) = after_read retry w (live_holder w (read_lock_record j w))

-- The loop of `acquireEnvLock`, with the attempts that are left.
unfoldable pub attempts : ℕ → Json → ℕ → World → Result LockError World
attempts zero j pid w = err not_acquired
attempts (suc k) j pid w = after_open (attempts k j pid) j pid w w.path

unfoldable pub acquire_env_lock : Json → ℕ → World → Result LockError World
unfolding attempts
acquire_env_lock j pid w = attempts 2 j pid w

-- `record == null || record.pid === process.pid`
abbrev pub may_remove : ℕ → Option LockRecord → Bool
may_remove pid none = true
may_remove pid (some r) = r.pid == pid

-- A failed unlink is logged, and nothing more.
abbrev pub unlinked : World → World
unlinked w = record w { path = none }

-- `releaseEnvLock()`, with the member of `heldLocks`.
unfoldable pub release_env_lock : Json → ℕ → Bool → World → World
unfolding read_lock_record
release_env_lock j pid held w =
    if held then (if may_remove pid (read_lock_record j w) then unlinked w else w) else w

unfoldable pub is_env_lock_held : Json → World → Bool
unfolding read_lock_record is_process_alive
is_env_lock_held j w = elim (read_lock_record j w) [
  | none ↦ false
  | some r ↦ assume_held (is_process_alive w.signals r.pid)
]
