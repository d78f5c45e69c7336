-- ===== src/Fiber/Status/Laws.antt =====
-- When a node is reported as running.
use mathlib.Core.Option.{some-injective}
use mathlib.Core.Path.{subst}
use offckb.Base.{
  ◌&&◌, arith, ◌≡◌, ◌≢◌, ◌↔◌, inl, inr, refl, ap, sym, ◌∙◌, Bool, true, false, Option, none, some,
  List, [], ◌∷◌, ◌++◌, Bool-cases, list_eqb_iff, ◌==◌, text_eq,
}
use offckb.Base.Text.{Text, lower}
use offckb.Fiber.Manager.Checks.{LockScript, lock_matches}
use offckb.Fiber.Status.{
  running, Reason, no_key, no_pubkey, pubkey_mismatch, no_lock, lock_mismatch, NodeInfo,
  pubkey_reasons, lock_reasons, is_conflict, judged, node_status,
}

-- The lock that a node reported is the one that is expected, letter case aside, in its three parts.
abbrev pub IsSameLock : Option LockScript → LockScript → Type 0
IsSameLock lock expected =
    (l : LockScript) × (lock ≡ some l)
    × (lower l.code_hash ≡ lower expected.code_hash)
    × (lower l.hash_type ≡ lower expected.hash_type)
    × (lower l.args ≡ lower expected.args)

and_iff : (a b : Bool) → (a && b ≡ true) ↔ ((a ≡ true) × (b ≡ true))
and_iff a b = ground arith

pub lock_matches_iff :
    (lock : Option LockScript) (expected : LockScript)
    → (lock_matches lock expected ≡ true) ↔ IsSameLock lock expected
unfolding lock_matches
lock_matches_iff none expected = ((λ h. cc), λ (l, e, code, type, args). cc)
lock_matches_iff (some lock) expected = (
  λ h.
      let (rest, third) = (and_iff _ _).0 h in
      let (first, second) = (and_iff _ _).0 rest in
      (
        lock,
        refl,
        (list_eqb_iff _ _).0 first,
        (list_eqb_iff _ _).0 second,
        (list_eqb_iff _ _).0 third,
      ),
  λ (l, e, code, type, args).
      let same : l ≡ lock = some-injective l lock (sym e) in
      (and_iff _ _).1 (
        (and_iff _ _).1 (
          (list_eqb_iff _ _).1 (ap (λ (x : LockScript). lower x.code_hash) (sym same) ∙ code),
          (list_eqb_iff _ _).1 (ap (λ (x : LockScript). lower x.hash_type) (sym same) ∙ type),
        ),
        (list_eqb_iff _ _).1 (ap (λ (x : LockScript). lower x.args) (sym same) ∙ args),
      ),
)

-- The node answered with the key and the lock that are expected of it.
abbrev pub Answers : Option NodeInfo → Option Text → LockScript → Type 0
Answers info key lock =
    (i : NodeInfo) × (k : Text) × (p : Text) × (info ≡ some i)
    × (key ≡ some k)
    × (i.pubkey ≡ some p)
    × (p ≢ [])
    × (lower p ≡ k)
    × IsSameLock i.lock lock

judged-running : (rs : List Reason) → (judged rs).0 ≡ running → rs ≡ []
judged-running [] h = refl
judged-running (pubkey_mismatch ∷ rs) h = cc
judged-running (lock_mismatch ∷ rs) h = cc
judged-running (no_key ∷ rs) h = elim (Bool-cases (is_conflict rs)) [
  | inl bad ↦ cc (rw bad at h)
  | inr good ↦ cc (rw good at h)
]
judged-running (no_pubkey ∷ rs) h = elim (Bool-cases (is_conflict rs)) [
  | inl bad ↦ cc (rw bad at h)
  | inr good ↦ cc (rw good at h)
]
judged-running (no_lock ∷ rs) h = elim (Bool-cases (is_conflict rs)) [
  | inl bad ↦ cc (rw bad at h)
  | inr good ↦ cc (rw good at h)
]

append-eq-nil : (xs ys : List Reason) → xs ++ ys ≡ [] → (xs ≡ []) × (ys ≡ [])
append-eq-nil [] ys h = (refl, h)
append-eq-nil (x ∷ xs) ys h = cc

pubkey_reasons-nil :
    (k : Text) (o : Option Text)
    → pubkey_reasons k o ≡ []
    → (p : Text) × (o ≡ some p) × (p ≢ []) × (lower p ≡ k)
pubkey_reasons-nil k none h = cc
pubkey_reasons-nil k (some []) h = cc
pubkey_reasons-nil k (some (c ∷ s)) h = elim (Bool-cases (lower (c ∷ s) == k)) [
  | inl same ↦ (c ∷ s, refl, (λ e. cc), (list_eqb_iff _ _).0 same)
  | inr other ↦ cc (rw other at h)
]

lock_reasons-nil :
    (lock : LockScript) (o : Option LockScript)
    → lock_reasons lock o ≡ []
    → lock_matches o lock ≡ true
lock_reasons-nil lock none h = cc
lock_reasons-nil lock (some l) h = elim (Bool-cases (lock_matches (some l) lock)) [
  | inl same ↦ same
  | inr other ↦ cc (rw other at h)
]

pubkey_reasons-same :
    (k p : Text) (o : Option Text) → o ≡ some p → p ≢ [] → lower p ≡ k → pubkey_reasons k o ≡ []
pubkey_reasons-same k p none e some' h = cc
pubkey_reasons-same k p (some []) e some' h = absurd (some' (cc))
pubkey_reasons-same k p (some (c ∷ s)) e some' h =
    let same : p ≡ c ∷ s = cc in
    rw ((list_eqb_iff (lower (c ∷ s)) k).1 (ap lower (sym same) ∙ h)) refl

lock_reasons-same :
    (lock : LockScript) (o : Option LockScript)
    → lock_matches o lock ≡ true
    → lock_reasons lock o ≡ []
unfolding lock_matches
lock_reasons-same lock none h = cc
lock_reasons-same lock (some l) h = rw h refl

-- A node is reported as running exactly when it answered, the secret of its key can be read, and it
-- reported the public key of that secret and the lock of its account, letter case aside.
pub node_status_iff :
    (manager_starting : Bool) (info : Option NodeInfo) (key : Option Text) (lock : LockScript)
    → ((node_status manager_starting info key lock).0 ≡ running) ↔ Answers info key lock
unfolding node_status
node_status_iff true none key lock = (λ h. cc, λ (i, k, p, e, e', e'', n, l, m). cc)
node_status_iff false none key lock = (λ h. cc, λ (i, k, p, e, e', e'', n, l, m). cc)
node_status_iff s (some info) none lock = (λ h. cc, λ (i, k, p, e, e', e'', n, l, m). cc)
node_status_iff s (some info) (some key) lock = (
  λ h.
      let (no_pubkey', no_lock') =
        append-eq-nil (pubkey_reasons key info.pubkey) _ (judged-running _ h) in
      let (p, has_p, some_p, same) = pubkey_reasons-nil key info.pubkey no_pubkey' in
      (
        info,
        key,
        p,
        refl,
        refl,
        has_p,
        some_p,
        same,
        (lock_matches_iff info.lock lock).0 (lock_reasons-nil lock info.lock no_lock'),
      ),
  λ (i, k, p, is_info, is_key, has_p, some_p, same, locked).
      let info' : i ≡ info = cc in
      let key' : k ≡ key = cc in
      let pubkey : pubkey_reasons key info.pubkey ≡ [] =
        pubkey_reasons-same key p info.pubkey (ap (λ (x : NodeInfo). x.pubkey) (sym info') ∙ has_p)
          some_p (same ∙ key') in
      let lock' : lock_reasons lock info.lock ≡ [] = lock_reasons-same lock info.lock (
        (lock_matches_iff info.lock lock).1
          (subst (λ (x : NodeInfo). IsSameLock x.lock lock) info' locked)) in
      rw pubkey (rw lock' refl),
)
