-- ===== src/Fiber/Clean/Laws.antt =====
-- Nothing of a Fiber environment is deleted while it may be in use.
use mathlib.Core.Path.{subst}
use offckb.Base.{
  ℕ, ◌≡◌, ◌⊎◌, inl, inr, refl, Bool, true, false, Option, none, some, List, [], ◌∷◌, ◌++◌, map, All,
  Bool-cases, if-cases, Result, ok, err, >>=-eq-ok, ok-injective,
}
use offckb.Base.Text.{Text}
use offckb.Fiber.EnvLock.{Signal, is_process_alive}
use offckb.Fiber.Stop.{is_gone}
use offckb.Fiber.StoreLock.{Inspection, is_store_lock_held, is_free}
use offckb.Daemon.PidFiles.{PidMetadata, is_alive_number}
use offckb.Fiber.Clean.{
  Snapshot, CleanError, no_manager, daemon_gone, no_daemon, held_locks, none_held,
  assert_fiber_fully_stopped, Effect, delete_tree, acquire, remove_runtime_if_stale, release,
  Inputs, confirm_or_abort, deletions, clean_locked, with_release, fiber_clean,
}

-- The manager is gone, the daemon is gone, and each store lock is free.
abbrev pub IsStopped : Snapshot → Type 0
IsStopped s =
    ((pid : ℕ) → s.manager ≡ some pid → is_process_alive s.signals pid ≡ some false)
    × ((m : PidMetadata) → s.daemon ≡ some m → is_alive_number s.signals m.pid ≡ some false)
    × All (λ x. is_store_lock_held x ≡ some false) s.store_locks

is_gone-eq-true : (o : Option Bool) → is_gone o ≡ true → o ≡ some false
is_gone-eq-true none h = cc
is_gone-eq-true (some true) h = cc
is_gone-eq-true (some false) h = refl

no_manager-eq-ok :
    (signals : ℕ → Signal) (manager : Option ℕ) {u : Unit {0}}
    → no_manager signals manager ≡ ok u
    → (pid : ℕ) → manager ≡ some pid
    → is_process_alive signals pid ≡ some false
no_manager-eq-ok signals none h pid e = cc
no_manager-eq-ok signals (some k) h pid e =
    elim (Bool-cases (is_gone (is_process_alive signals k))) [
      | inl gone ↦
          let same : k ≡ pid = cc in
          subst (λ x. is_process_alive signals x ≡ some false) same (is_gone-eq-true _ gone)
      | inr alive ↦ cc (rw alive at h)
    ]

daemon_gone-eq-ok : (o : Option Bool) {u : Unit {0}} → daemon_gone o ≡ ok u → o ≡ some false
daemon_gone-eq-ok none h = cc
daemon_gone-eq-ok (some true) h = cc
daemon_gone-eq-ok (some false) h = refl

no_daemon-eq-ok :
    (signals : ℕ → Signal) (daemon : Option PidMetadata) {u : Unit {0}}
    → no_daemon signals daemon ≡ ok u
    → (m : PidMetadata) → daemon ≡ some m
    → is_alive_number signals m.pid ≡ some false
no_daemon-eq-ok signals none h m e = cc
no_daemon-eq-ok signals (some k) h m e =
    let same : k ≡ m = cc in
    subst (λ (x : PidMetadata). is_alive_number signals x.pid ≡ some false) same
      (daemon_gone-eq-ok _ h)

is_free-eq-true : (o : Option Bool) → is_free o ≡ true → o ≡ some false
is_free-eq-true none h = cc
is_free-eq-true (some true) h = cc
is_free-eq-true (some false) h = refl

none_held-eq-ok :
    (locks : List Inspection) {u : Unit {0}}
    → none_held (held_locks locks) ≡ ok u
    → All (λ x. is_store_lock_held x ≡ some false) locks
none_held-eq-ok [] h = tt
none_held-eq-ok (x ∷ xs) h = elim (Bool-cases (is_free (is_store_lock_held x))) [
  | inl free ↦ (is_free-eq-true _ free, none_held-eq-ok xs (rw free at h))
  | inr held ↦ cc (rw held at h)
]

assert_fiber_fully_stopped-IsStopped :
    (s : Snapshot) {u : Unit {0}} → assert_fiber_fully_stopped s ≡ ok u → IsStopped s
unfolding assert_fiber_fully_stopped
assert_fiber_fully_stopped-IsStopped s h =
    let (_, manager, rest) = >>=-eq-ok (no_manager s.signals s.manager) _ h in
    let (_, daemon, locks) = >>=-eq-ok (no_daemon s.signals s.daemon) _ rest in
    (
      no_manager-eq-ok s.signals s.manager manager,
      no_daemon-eq-ok s.signals s.daemon daemon,
      none_held-eq-ok s.store_locks locks,
    )

abbrev pub IsOneOf : List Text → Text → Type 0
IsOneOf [] path = ⊥
IsOneOf (s ∷ ss) path = (s ≡ path) ⊎ IsOneOf ss path

abbrev pub IsTarget : Inputs → Text → Type 0
IsTarget n path =
    ((n.data_only ≡ true) × IsOneOf n.stores path) ⊎ ((n.data_only ≡ false) × (path ≡ n.root))

-- What was found before the deletions.
abbrev pub MayClean : Inputs → Type 0
MayClean n =
    (n.lock_acquired ≡ true)
    × IsStopped n.before
    × IsStopped n.after
    × ((n.yes' ≡ true) ⊎ (n.confirmed ≡ true))

-- What may be deleted then.
abbrev pub Deletes : Inputs → Effect → Type 0
Deletes n (delete_tree path) = MayClean n × IsTarget n path
Deletes n remove_runtime_if_stale = MayClean n × (n.data_only ≡ true)
Deletes n acquire = ⊥
Deletes n release = ⊥

-- The effects in order, from a state in which the lock of the environment is held or not. It is
-- held at each deletion, and not at the end.
pub MayDelete : Inputs → Bool → List Effect → Type 0
MayDelete n held [] = held ≡ false
MayDelete n held (acquire ∷ effects) =
    (held ≡ false) × (n.lock_acquired ≡ true) × MayDelete n true effects
MayDelete n held (release ∷ effects) = (held ≡ true) × MayDelete n false effects
MayDelete n held (delete_tree path ∷ effects) =
    (held ≡ true) × Deletes n (delete_tree path) × MayDelete n held effects
MayDelete n held (remove_runtime_if_stale ∷ effects) =
    (held ≡ true) × Deletes n remove_runtime_if_stale × MayDelete n held effects

confirm_or_abort-eq-ok :
    (n : Inputs) {u : Unit {0}} → confirm_or_abort n ≡ ok u → (n.yes' ≡ true) ⊎ (n.confirmed ≡ true)
confirm_or_abort-eq-ok n h = elim (Bool-cases n.yes') [
  | inl y ↦ inl y
  | inr unasked ↦ elim (Bool-cases n.confirmed) [
    | inl c ↦ inr c
    | inr refused ↦ cc (rw (unasked, refused) at h)
  ]
]

stores-Deletes :
    (n : Inputs) (stores : List Text)
    → MayClean n
    → n.data_only ≡ true
    → ((path : Text) → IsOneOf stores path → IsOneOf n.stores path)
    → All (Deletes n) (map delete_tree stores)
stores-Deletes n [] may only from = tt
stores-Deletes n (s ∷ ss) may only from = (
  (may, inl (only, from s (inl refl))),
  stores-Deletes n ss may only (λ path h. from path (inr h)),
)

deletions-Deletes : (n : Inputs) → MayClean n → All (Deletes n) (deletions n)
deletions-Deletes n may =
    if-cases (All (Deletes n)) n.data_only _ _
      (λ only. ((may, only), stores-Deletes n n.stores may only (λ path h. h)))
      (λ whole. ((may, inr (whole, refl)), tt))

clean_locked-Deletes :
    (n : Inputs) (effects : List Effect)
    → n.lock_acquired ≡ true
    → clean_locked n ≡ ok effects
    → All (Deletes n) effects
unfolding clean_locked
clean_locked-Deletes n effects lock h = elim (Bool-cases n.root_exists) [
  | inr missing ↦ subst (All (Deletes n)) (ok-injective [] effects (rw missing at h)) tt
  | inl there ↦
      let (_, before, h1) = >>=-eq-ok (assert_fiber_fully_stopped n.before) _ (rw there at h) in
      let (_, confirmed, h2) = >>=-eq-ok (confirm_or_abort n) _ h1 in
      let (_, after, last) = >>=-eq-ok (assert_fiber_fully_stopped n.after) _ h2 in
      subst (All (Deletes n)) (ok-injective (deletions n) effects last) (
        deletions-Deletes n (
          lock,
          assert_fiber_fully_stopped-IsStopped n.before before,
          assert_fiber_fully_stopped-IsStopped n.after after,
          confirm_or_abort-eq-ok n confirmed,
        ))
]

released-MayDelete :
    (n : Inputs) (effects : List Effect)
    → All (Deletes n) effects
    → MayDelete n true (effects ++ (release ∷ []))
unfolding MayDelete
released-MayDelete n [] h = (refl, refl)
released-MayDelete n (delete_tree path ∷ effects) (may, rest) =
    (refl, may, released-MayDelete n effects rest)
released-MayDelete n (remove_runtime_if_stale ∷ effects) (may, rest) =
    (refl, may, released-MayDelete n effects rest)
released-MayDelete n (acquire ∷ effects) (may, rest) = absurd may
released-MayDelete n (release ∷ effects) (may, rest) = absurd may

with_release-MayDelete :
    (n : Inputs) (r : Result CleanError (List Effect))
    → n.lock_acquired ≡ true
    → ((effects : List Effect) → r ≡ ok effects → All (Deletes n) effects)
    → MayDelete n false (with_release r).0
unfolding MayDelete
with_release-MayDelete n (err e) lock h = (refl, lock, (refl, refl))
with_release-MayDelete n (ok effects) lock h =
    (refl, lock, released-MayDelete n effects (h effects refl))

-- A clean takes the lock of the environment before it deletes anything, and gives it back after the
-- last deletion, also when it fails. Whatever it deletes, the user agreed, and both before and after
-- the user was asked no manager and no daemon lived and each store lock was free. With --data it
-- deletes the runtime record and stores of the nodes only, and else the root of the environment
-- only.
pub fiber_clean-MayDelete : (n : Inputs) → MayDelete n false (fiber_clean n).0
unfolding fiber_clean MayDelete
fiber_clean-MayDelete n =
    if-cases (λ (r : List Effect × Option CleanError). MayDelete n false r.0) n.lock_acquired _ _
      (λ lock.
        with_release-MayDelete n (clean_locked n) lock
          (λ effects. clean_locked-Deletes n effects lock))
      (λ unlocked. refl)
