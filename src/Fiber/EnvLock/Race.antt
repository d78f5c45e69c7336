-- ===== src/Fiber/EnvLock/Race.antt =====
-- Processes whose operations overlap: one call of the file system at a time.
use mathlib.Core.Path.{subst}
use offckb.Base.{
  sym, ℕ, zero, suc, ◌<◌, ◌≡◌, ◌≢◌, refl, Option, none, some, List, [], ◌∷◌, eqb_iff, nat_eq, arith,
  ap, ◌∙◌,
}
use offckb.Fiber.EnvLock.{
  Json, World, LockRecord, read_lock_record, created, write_record, live_holder, unlink_at,
  unlinked, read_content, parsed_record,
}
use offckb.Fiber.EnvLock.Laws.{
  IsJson, IsAlive, parsed, locked, read_lock_record-locked, signals-locked, path-locked,
}

-- Where a process stands in `acquireEnvLock`, with the attempts left and its open descriptor.
pub data Stage : Type 0 where
  opening reading removing : ℕ → Stage
  writing : ℕ → Stage
  holds refused failed : Stage

unfoldable pub stage_after_open : ℕ → World → Option ℕ → World × Stage
stage_after_open k w none = (created w, writing w.next)
stage_after_open k w (some _) = (w, reading k)

unfoldable pub stage_after_read : ℕ → World → Option LockRecord → World × Stage
stage_after_read k w none = (w, removing k)
stage_after_read k w (some _) = (w, refused)

unfoldable pub stage_after_unlink : ℕ → World → Option World → World × Stage
stage_after_unlink k w none = (w, failed)
stage_after_unlink k w (some w') = (w', opening k)

-- The next call of process `pid`.
unfoldable pub call : Json → ℕ → World → Stage → World × Stage
unfolding stage_after_open stage_after_read stage_after_unlink
call j pid w (opening zero) = (w, failed)
call j pid w (opening (suc k)) = stage_after_open k w w.path
call j pid w (reading k) = stage_after_read k w (live_holder w (read_lock_record j w))
call j pid w (removing k) = stage_after_unlink k w (unlink_at w w.path)
call j pid w (writing i) = (write_record j pid i w, holds)
call j pid w s = (w, s)

-- Two processes, and a schedule that names the one that makes each call.
pub data Turn : Type 0 where
  first second : Turn

pub record Pair : Type 0 where
  pub world : World
  pub one : Stage
  pub two : Stage

abbrev moved_first : World × Stage → Pair → Pair
moved_first (w, s) c = record c { world = w; one = s }

abbrev moved_second : World × Stage → Pair → Pair
moved_second (w, s) c = record c { world = w; two = s }

unfoldable pub interleave : Json → ℕ → ℕ → List Turn → Pair → Pair
unfolding call
interleave j p q [] c = c
interleave j p q (first ∷ turns) c = interleave j p q turns (moved_first (call j p c.world c.one) c)
interleave j p q (second ∷ turns) c =
    interleave j p q turns (moved_second (call j q c.world c.two) c)

abbrev pub both_start : World → Pair
both_start w = record { world = w; one = opening 2; two = opening 2 }

created-unreadable :
    (j : Json) (w : World)
    → IsJson j
    → live_holder (created w) (read_lock_record j (created w)) ≡ none
unfolding read_lock_record live_holder
created-unreadable j w h = ap (live_holder (created w)) (
    ap (λ s. read_content j (some s)) (ground (arith, eqb_iff w.next w.next))
    ∙ ap (parsed_record j) h.parse_empty)

abbrev pub race : List Turn
race = first ∷ second ∷ second ∷ second ∷ second ∷ second ∷ first ∷ []

-- The world when the race is over.
abbrev pub raced : Json → ℕ → ℕ → World → World
raced j p q w =
    write_record j p w.next (write_record j q (suc w.next) (created (unlinked (created w))))

interleave-race :
    (j : Json) (w : World) (p q : ℕ)
    → IsJson j
    → w.path ≡ none
    → interleave j p q race (both_start w)
      ≡ record { world = raced j p q w; one = holds; two = holds }
unfolding interleave
interleave-race j w p q h free =
    ap
      (λ r.
        interleave j p q (second ∷ second ∷ second ∷ second ∷ second ∷ first ∷ [])
          (moved_first r (both_start w)))
      (ap (stage_after_open 1 w) free)
    ∙ ap
        (λ r.
          interleave j p q (second ∷ second ∷ second ∷ first ∷ [])
            (moved_second r (record { world = created w; one = writing w.next; two = reading 1 })))
        (ap (stage_after_read 1 (created w)) (created-unreadable j w h))

read_lock_record-raced :
    (j : Json) (w : World) (p q : ℕ)
    → IsJson j
    → 0 < q
    → read_lock_record j (raced j p q w) ≡ some (record { pid = q; acquired_at = w.now })
unfolding read_lock_record write_record
read_lock_record-raced j w p q h lt =
    ap (λ s. read_content j (some s))
      (ground (arith, eqb_iff (suc w.next) w.next, eqb_iff (suc w.next) (suc w.next)))
    ∙ parsed j h q w.now lt

-- `p` has created the lock and not yet written its record when `q` reads it: `q` takes the empty
-- file for a stale lock, removes it, and acquires the lock as well, so both processes hold it,
-- and the file records `q` alone. Both are ready to run from a world without a lock file, for any
-- two process numbers above zero.
pub overlapping_acquisition :
    (j : Json) (w : World) (p q : ℕ)
    → IsJson j
    → 0 < q
    → w.path ≡ none
    → ((interleave j p q race (both_start w)).one ≡ holds)
      × ((interleave j p q race (both_start w)).two ≡ holds)
      × (read_lock_record j (interleave j p q race (both_start w)).world
          ≡ some (record { pid = q; acquired_at = w.now }))
overlapping_acquisition j w p q h lt free =
    let e = interleave-race j w p q h free in
    (
      ap (λ c. c.one) e,
      ap (λ c. c.two) e,
      ap (λ c. read_lock_record j c.world) e ∙ read_lock_record-raced j w p q h lt,
    )

-- `q` has not taken the lock, and does not take it for a stale one.
abbrev IsWaiting : Stage → Type 0
IsWaiting (opening _) = Unit
IsWaiting (reading _) = Unit
IsWaiting refused = Unit
IsWaiting failed = Unit
IsWaiting _ = ⊥

abbrev IsWritten : Json → Pair → Type 0
IsWritten j c =
    (c.one ≡ holds)
    × IsWaiting c.two
    × ((i : ℕ) × (c.world.path ≡ some i))
    × ((r : LockRecord) × (live_holder c.world (read_lock_record j c.world) ≡ some r))

call-IsWaiting :
    (j : Json) (q : ℕ) (w : World) (s : Stage)
    → IsWaiting s
    → ((i : ℕ) × (w.path ≡ some i))
    → ((r : LockRecord) × (live_holder w (read_lock_record j w) ≡ some r))
    → ((call j q w s).0 ≡ w) × IsWaiting ((call j q w s).1)
unfolding call
call-IsWaiting j q w (opening zero) s there live = (refl, tt)
call-IsWaiting j q w (opening (suc k)) s (i, there) live = rw there (refl, tt)
call-IsWaiting j q w (reading k) s there (r, live) = rw live (refl, tt)
call-IsWaiting j q w (removing _) s there live = elim s [ ]
call-IsWaiting j q w (writing _) s there live = elim s [ ]
call-IsWaiting j q w holds s there live = elim s [ ]
call-IsWaiting j q w refused s there live = (refl, tt)
call-IsWaiting j q w failed s there live = (refl, tt)

interleave-IsWritten :
    (j : Json) (p q : ℕ) (turns : List Turn) (c : Pair)
    → IsWritten j c
    → IsWritten j (interleave j p q turns c)
unfolding interleave
interleave-IsWritten j p q [] c h = h
interleave-IsWritten j p q (first ∷ turns) c (one, two, there, live) =
    subst (λ r. IsWritten j (interleave j p q turns (moved_first r c)))
      (sym (ap (call j p c.world) one))
      (interleave-IsWritten j p q turns (record c { one = holds }) (refl, two, there, live))
interleave-IsWritten j p q (second ∷ turns) c (one, two, there, live) =
    let (same, waits) = call-IsWaiting j q c.world c.two two there live in
    interleave-IsWritten j p q turns (moved_second (call j q c.world c.two) c) (
      one,
      waits,
      subst (λ w. (i : ℕ) × (w.path ≡ some i)) (sym same) there,
      subst (λ w. (r : LockRecord) × (live_holder w (read_lock_record j w) ≡ some r)) (sym same)
          live,
    )

IsWritten-IsWritten :
    (j : Json) (w : World) (p : ℕ)
    → IsJson j
    → 0 < p
    → IsAlive w p
    → IsWritten j (record { world = locked j p w; one = holds; two = opening 2 })
unfolding live_holder
IsWritten-IsWritten j w p h lt alive = (
  refl,
  tt,
  (w.next, path-locked j p w),
  (
    record { pid = p; acquired_at = w.now },
    rw (read_lock_record-locked j h p w lt) (rw (signals-locked j p w) (rw alive refl)),
  ),
)

-- Once `p`, alive, has created the lock and written its record without a call of `q` in between,
-- no schedule of the two lets `q` have it: `p` holds it, and `q` does not.
pub written_lock_excludes :
    (j : Json) (w : World) (p q : ℕ) (turns : List Turn)
    → IsJson j
    → 0 < p
    → w.path ≡ none
    → IsAlive w p
    → ((interleave j p q (first ∷ first ∷ turns) (both_start w)).one ≡ holds)
      × ((interleave j p q (first ∷ first ∷ turns) (both_start w)).two ≢ holds)
unfolding interleave
written_lock_excludes j w p q turns h lt free alive =
    let e =
      ap (λ r. interleave j p q (first ∷ turns) (moved_first r (both_start w)))
        (ap (stage_after_open 1 w) free) in
    let (one, waits, _, _) =
      interleave-IsWritten j p q turns
        (record { world = locked j p w; one = holds; two = opening 2 })
        (IsWritten-IsWritten j w p h lt alive) in
    (ap (λ c. c.one) e ∙ one, λ both. subst IsWaiting (sym (ap (λ c. c.two) e) ∙ both) waits)
