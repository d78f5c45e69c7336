-- ===== src/Fiber/EnvLock/Laws.antt =====
-- The environment lock when the calls of one operation are not interrupted.
use offckb.Base.{
  ℕ, zero, suc, ◌<◌, ◌≡◌, ◌⊎◌, inl, inr, refl, ap, ◌∙◌, true, none, some, eqb_iff, list_eqb, nat_eq,
  ok, err, arith, Option-cases, [],
}
use offckb.Base.Text.{Text, text}
use offckb.Value.{num, str, obj, pos, integer, field, end, lookup}
use offckb.Value.Paths.{get_key}
use offckb.Fiber.EnvLock.{
  Json, is_process_alive, LockRecord, World, another_process, read_content, content_at,
  read_lock_record, created, record_text, write_record, assume_held, live_holder, attempts,
  after_open, after_read, remove_stale, unlink_at, acquire_env_lock, unlinked,
}

-- What the lock uses of JSON: a printed record parses to itself, and the empty text is an error.
pub record IsJson (j : Json) : Type 0 where
  pub parse_record :
      (pid : ℕ) (now : Text)
      → j.parse (record_text j pid now)
        ≡ some (
            obj (
              field
                (text "pid")
                (num (integer (pos pid)))
                (field (text "acquiredAt") (str now) end)))
  pub parse_empty : j.parse [] ≡ none

-- A process is alive, as far as another one can tell.
abbrev pub IsAlive : World → ℕ → Type 0
IsAlive w pid = assume_held (is_process_alive w.signals pid) ≡ true

pub parsed :
    (j : Json)
    → IsJson j
    → (pid : ℕ) (now : Text) → 0 < pid
    → read_content j (some (record_text j pid now)) ≡ some (record { pid = pid; acquired_at = now })
unfolding get_key lookup text list_eqb
parsed j h zero now lt = absurd (omega arith)
parsed j h (suc n) now lt = rw (h.parse_record (suc n) now) refl

-- The world after a process has created and written the lock.
abbrev pub locked : Json → ℕ → World → World
locked j pid w = write_record j pid w.next (created w)

pub read_lock_record-locked :
    (j : Json)
    → IsJson j
    → (pid : ℕ) (w : World) → 0 < pid
    → read_lock_record j (locked j pid w) ≡ some (record { pid = pid; acquired_at = w.now })
unfolding read_lock_record write_record
read_lock_record-locked j h pid w lt =
    ap (read_content j) (ap some (ground (arith, eqb_iff w.next w.next))) ∙ parsed j h pid w.now lt

acquire-free :
    (k : ℕ) (j : Json) (pid : ℕ) (w : World)
    → w.path ≡ none
    → attempts (suc k) j pid w ≡ ok (locked j pid w)
unfolding attempts
acquire-free k j pid w free = ap (after_open (attempts k j pid) j pid w) free

acquire-refused :
    (k : ℕ) (j : Json) (pid : ℕ) (w : World) (i : ℕ) (r : LockRecord)
    → w.path ≡ some i
    → live_holder w (read_lock_record j w) ≡ some r
    → attempts (suc k) j pid w ≡ err (another_process r)
unfolding attempts
acquire-refused k j pid w i r there live =
    ap (after_open (attempts k j pid) j pid w) there ∙ ap (after_read (attempts k j pid) w) live

acquire-stale :
    (k : ℕ) (j : Json) (pid : ℕ) (w : World) (i : ℕ)
    → w.path ≡ some i
    → live_holder w (read_lock_record j w) ≡ none
    → attempts (suc (suc k)) j pid w ≡ ok (locked j pid (unlinked w))
unfolding attempts
acquire-stale k j pid w i there stale =
    ap (after_open (attempts (suc k) j pid) j pid w) there
    ∙ ap (after_read (attempts (suc k) j pid) w) stale
    ∙ ap (λ o. remove_stale (attempts (suc k) j pid) (unlink_at w o)) there
    ∙ acquire-free k j pid (unlinked w) refl

-- The lock is free or stale: no living process is named by it.
abbrev pub IsOpen : Json → World → Type 0
IsOpen j w = live_holder w (read_lock_record j w) ≡ none

free-IsOpen : (j : Json) (w : World) → w.path ≡ none → IsOpen j w
unfolding read_lock_record live_holder
free-IsOpen j w free = ap (λ o. live_holder w (read_content j (content_at w o))) free

pub path-locked : (j : Json) (pid : ℕ) (w : World) → (locked j pid w).path ≡ some w.next
unfolding write_record
path-locked j pid w = refl

pub signals-locked : (j : Json) (pid : ℕ) (w : World) → (locked j pid w).signals ≡ w.signals
unfolding write_record
signals-locked j pid w = refl

-- When the calls of the file system work, an uninterrupted acquisition fails only when a living
-- process is recorded, which the error names. When there is no lock file, when it is unreadable or when its process is gone, it
-- succeeds, and the lock then records the process itself.
pub acquire_env_lock_lem :
    (j : Json) (pid : ℕ) (w : World)
    → IsJson j
    → 0 < pid
    → (IsOpen j w
        × (w' : World) × (acquire_env_lock j pid w ≡ ok w')
        × (w'.signals ≡ w.signals)
        × (read_lock_record j w' ≡ some (record { pid = pid; acquired_at = w.now })))
      ⊎ ((r : LockRecord) × (live_holder w (read_lock_record j w) ≡ some r)
          × (acquire_env_lock j pid w ≡ err (another_process r)))
unfolding acquire_env_lock
acquire_env_lock_lem j pid w h lt = elim (Option-cases w.path) [
  | inl free ↦ inl (
    free-IsOpen j w free,
    locked j pid w,
    acquire-free 1 j pid w free,
    signals-locked j pid w,
    read_lock_record-locked j h pid w lt,
  )
  | inr (i, there) ↦ elim (Option-cases (live_holder w (read_lock_record j w))) [
    | inl stale ↦ inl (
      stale,
      locked j pid (unlinked w),
      acquire-stale 0 j pid w i there stale,
      signals-locked j pid (unlinked w),
      read_lock_record-locked j h pid (unlinked w) lt,
    )
    | inr (r, live) ↦ inr (r, live, acquire-refused 1 j pid w i r there live)
  ]
]
