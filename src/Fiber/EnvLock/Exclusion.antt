-- ===== src/Fiber/EnvLock/Exclusion.antt =====
-- Processes that take turns at the environment lock, each operation uninterrupted.
use mathlib.Core.Option.{some-injective}
use mathlib.Core.Path.{subst}
use offckb.Base.{
  ℕ, zero, suc, ◌<◌, ◌≡◌, ◌≢◌, inl, inr, refl, sym, ap, ◌∙◌, Bool, true, false, some, List, [], ◌∷◌,
  if◌then◌else◌, eqb, eqb_iff, ◌==◌, nat_eq, Result, ok, err, arith, Bool-cases, All,
}
use offckb.Fiber.EnvLock.{
  Json, Signal, no_process, delivered, is_process_alive, LockRecord, World, LockError,
  read_lock_record, assume_held, live_holder, acquire_env_lock, may_remove, release_env_lock,
}
use offckb.Fiber.EnvLock.Laws.{IsJson, IsAlive, IsOpen, acquire_env_lock_lem}

-- `held` is the set `heldLocks` of each process; a process that starts under an old number has
-- an empty one.
pub data Operation : Type 0 where
  acquire release exit start : ℕ → Operation

pub record System : Type 0 where
  pub world : World
  pub held : ℕ → Bool

abbrev pub signalled : ℕ → Signal → World → World
signalled pid x w = record w { signals = λ q. if q == pid then x else w.signals q }

abbrev pub holding : ℕ → Bool → (ℕ → Bool) → ℕ → Bool
holding pid b held q = if q == pid then b else held q

abbrev pub acquired : ℕ → System → Result LockError World → System
acquired pid s (ok w) = record { world = w; held = holding pid true s.held }
acquired pid s (err _) = s

unfoldable pub operate : Json → Operation → System → System
operate j (acquire pid) s = acquired pid s (acquire_env_lock j pid s.world)
operate j (release pid) s = record {
  world = release_env_lock j pid (s.held pid) s.world;
  held = holding pid false s.held;
}
operate j (exit pid) s = record s { world = signalled pid no_process s.world }
operate j (start pid) s = record {
  world = signalled pid delivered s.world;
  held = holding pid false s.held;
}

unfoldable pub run : Json → List Operation → System → System
run j [] s = s
run j (x ∷ xs) s = run j xs (operate j x s)

-- A living process that holds the lock is the one in the file.
pub IsExclusive : Json → System → Type 0
IsExclusive j s =
    (pid : ℕ)
    → s.held pid ≡ true
    → IsAlive s.world pid
    → (r : LockRecord) × (read_lock_record j s.world ≡ some r) × (r.pid ≡ pid)

abbrev pub IsProcess : Operation → Type 0
IsProcess (acquire pid) = 0 < pid
IsProcess _ = Unit

recorded-live :
    (j : Json) (w : World) (r : LockRecord)
    → read_lock_record j w ≡ some r
    → IsAlive w r.pid
    → live_holder w (read_lock_record j w) ≡ some r
unfolding live_holder
recorded-live j w r h a = rw h (rw a refl)

-- The holder that is already there keeps the lock from opening.
acquired-IsExclusive :
    (j : Json) (pid : ℕ) (s : System) (w : World) (r : LockRecord)
    → IsExclusive j s
    → IsOpen j s.world
    → w.signals ≡ s.world.signals
    → read_lock_record j w ≡ some r
    → r.pid ≡ pid
    → IsExclusive j (acquired pid s (ok w))
unfolding IsExclusive
acquired-IsExclusive j pid s w r inv vacant same found own q held alive =
    elim (Bool-cases (eqb q pid)) [
      | inl self ↦ (r, found, own ∙ sym ((eqb_iff q pid).0 self))
      | inr other ↦
          let alive' = subst (λ t. assume_held (is_process_alive t q) ≡ true) same alive in
          let (x, recorded, by) = inv q (ground (arith, other, held)) alive' in
          let live =
            recorded-live j s.world x recorded (subst (λ n. IsAlive s.world n) (sym by) alive') in
          absurd (ground (arith, vacant, live))
    ]

acquire-IsExclusive :
    (j : Json) (pid : ℕ) (s : System)
    → IsJson j
    → 0 < pid
    → IsExclusive j s
    → IsExclusive j (operate j (acquire pid) s)
unfolding operate
acquire-IsExclusive j pid s h lt inv = elim (acquire_env_lock_lem j pid s.world h lt) [
  | inl (vacant, w, done, same, found) ↦
      subst (λ o. IsExclusive j (acquired pid s o)) (sym done)
        (acquired-IsExclusive j pid s w (record { pid = pid; acquired_at = s.world.now }) inv vacant
          same found refl)
  | inr (r, live, refused) ↦ subst (λ o. IsExclusive j (acquired pid s o)) (sym refused) inv
]

-- A release leaves a file that records another process as it is.
release_env_lock-other :
    (j : Json) (pid : ℕ) (held : Bool) (w : World) (r : LockRecord)
    → read_lock_record j w ≡ some r
    → r.pid ≢ pid
    → release_env_lock j pid held w ≡ w
unfolding release_env_lock
release_env_lock-other j pid false w r found other = refl
release_env_lock-other j pid true w r found other = rw found (ground (arith, eqb_iff r.pid pid))

release-signals :
    (j : Json) (pid : ℕ) (held : Bool) (w : World)
    → (release_env_lock j pid held w).signals ≡ w.signals
unfolding release_env_lock
release-signals j pid false w = refl
release-signals j pid true w = elim (Bool-cases (may_remove pid (read_lock_record j w))) [
  | inl b ↦ rw b refl
  | inr b ↦ rw b refl
]

release-IsExclusive :
    (j : Json) (pid : ℕ) (s : System) → IsExclusive j s → IsExclusive j (operate j (release pid) s)
unfolding IsExclusive operate
release-IsExclusive j pid s inv q held alive = elim (Bool-cases (eqb q pid)) [
  | inl self ↦ absurd (ground (arith, held, self))
  | inr other ↦
      let alive' =
        subst (λ t. assume_held (is_process_alive t q) ≡ true)
          (release-signals j pid (s.held pid) s.world) alive in
      let (r, found, by) = inv q (ground (arith, other, held)) alive' in
      (
        r,
        ap (read_lock_record j) (
              release_env_lock-other j pid (s.held pid) s.world r found
                (λ e. absurd (ground (arith, other, eqb_iff q pid, by, e))))
            ∙ found,
        by,
      )
]

signalled-read :
    (j : Json) (pid : ℕ) (x : Signal) (w : World)
    → read_lock_record j (signalled pid x w) ≡ read_lock_record j w
unfolding read_lock_record
signalled-read j pid x w = refl

signalled-IsAlive :
    (pid : ℕ) (x : Signal) (w : World) (q : ℕ)
    → eqb q pid ≡ false
    → IsAlive (signalled pid x w) q
    → IsAlive w q
unfolding is_process_alive
signalled-IsAlive pid x w zero other alive = alive
signalled-IsAlive pid x w (suc n) other alive = ground (arith, other, alive)

exited-other :
    (pid : ℕ) (w : World) (q : ℕ) → IsAlive (signalled pid no_process w) q → eqb q pid ≡ false
unfolding is_process_alive
exited-other pid w zero alive = absurd (ground (arith, alive))
exited-other pid w (suc n) alive = ground (arith, alive)

-- Each operation keeps it.
operate-IsExclusive :
    (j : Json) (x : Operation) (s : System)
    → IsJson j
    → IsProcess x
    → IsExclusive j s
    → IsExclusive j (operate j x s)
unfolding IsExclusive operate
operate-IsExclusive j (acquire pid) s h lt inv = acquire-IsExclusive j pid s h lt inv
operate-IsExclusive j (release pid) s h lt inv = release-IsExclusive j pid s inv
operate-IsExclusive j (exit pid) s h lt inv = λ q held alive.
    let (r, found, by) =
      inv q held
        (signalled-IsAlive pid no_process s.world q (exited-other pid s.world q alive) alive) in
    (r, signalled-read j pid no_process s.world ∙ found, by)
operate-IsExclusive j (start pid) s h lt inv = λ q held alive. elim (Bool-cases (eqb q pid)) [
  | inl self ↦ absurd (ground (arith, held, self))
  | inr other ↦
      let (r, found, by) =
        inv q (ground (arith, other, held))
          (signalled-IsAlive pid delivered s.world q other alive) in
      (r, signalled-read j pid delivered s.world ∙ found, by)
]

run-IsExclusive :
    (j : Json) (xs : List Operation) (s : System)
    → IsJson j
    → All IsProcess xs
    → IsExclusive j s
    → IsExclusive j (run j xs s)
unfolding run
run-IsExclusive j [] s h ps inv = inv
run-IsExclusive j (x ∷ xs) s h ps inv =
    run-IsExclusive j xs (operate j x s) h ps.1 (operate-IsExclusive j x s h ps.0 inv)

-- Processes acquire and release the lock, exit (also while they hold it) and start again under an
-- old number, in any order, from a state where none holds it, whatever stands at its path. Two
-- processes that are alive and hold the lock are then the same one, as long as no two operations
-- overlap.
pub mutual_exclusion :
    (j : Json) (xs : List Operation) (s : System) (p q : ℕ)
    → IsJson j
    → All IsProcess xs
    → ((pid : ℕ) → s.held pid ≡ false)
    → (run j xs s).held p ≡ true
    → IsAlive (run j xs s).world p
    → (run j xs s).held q ≡ true
    → IsAlive (run j xs s).world q
    → p ≡ q
unfolding IsExclusive
mutual_exclusion j xs s p q h ps none_held hp ap' hq aq =
    let inv =
      run-IsExclusive j xs s h ps (λ pid held. absurd (ground (arith, none_held pid, held))) in
    let (r, found, by) = inv p hp ap' in
    let (r', found', by') = inv q hq aq in
    sym by ∙ ap (λ t. t.pid) (some-injective r r' (sym found ∙ found')) ∙ by'
