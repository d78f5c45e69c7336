-- ===== src/Value/Paths/Laws.antt =====
-- What a write through a path leaves to be read.
use mathlib.Core.Option.{some-injective}
use offckb.Base.{
  ◌++◌, ap, ℕ, suc, ◌≡◌, refl, ◌≢◌, inl, inr, ◌∙◌, sym, ◌⊎◌, none, some, List, [], ◌∷◌,
  if◌then◌else◌, ◌==◌, text_eq, list_eqb_iff, Option-cases, arith,
}
use offckb.Base.Text.{Text, decimal}
use offckb.Value.{
  Value, arr, obj, Items, nil, cons, Fields, end, field, lookup, insert, get_item, set_item, remove,
}
use offckb.Value.Paths.{get_key, get_by_path, set_key, set_by_path, container}

pub lookup-insert :
    (j k : Text) (v : Value) (fs : Fields)
    → lookup j (insert k v fs) ≡ (if k == j then some v else lookup j fs)
unfolding lookup insert
lookup-insert j k v end = refl
lookup-insert j k v (field i w fs) =
    ground (arith, list_eqb_iff i k, list_eqb_iff i j, list_eqb_iff k j, lookup-insert j k v fs)

pub lookup-remove :
    (j k : Text) (fs : Fields) → lookup j (remove k fs) ≡ (if k == j then none else lookup j fs)
unfolding lookup remove
lookup-remove j k end = ground arith
lookup-remove j k (field i w fs) =
    ground (arith, list_eqb_iff i k, list_eqb_iff i j, list_eqb_iff k j, lookup-remove j k fs)

get_item-set_item_self :
    (i : ℕ) (k : Text) (v w : Value) (vs : Items)
    → get_item i k vs ≡ some w
    → get_item i k (set_item i k v vs) ≡ some v
unfolding get_item set_item
get_item-set_item_self i k v w nil h = cc
get_item-set_item_self i k v w (cons x vs) h =
    ground (arith, get_item-set_item_self (suc i) k v w vs)

get_item-set_item_ne :
    (i : ℕ) (j k : Text) (v : Value) (vs : Items)
    → k ≢ j
    → get_item i j (set_item i k v vs) ≡ get_item i j vs
unfolding get_item set_item
get_item-set_item_ne i j k v nil h = refl
get_item-set_item_ne i j k v (cons x vs) h = ground (
  arith,
  list_eqb_iff (decimal i) k,
  list_eqb_iff (decimal i) j,
  get_item-set_item_ne (suc i) j k v vs h,
)

-- Of a member that is there, a write is read back.
get_key-set_key_self :
    (k : Text) (v w t : Value) → get_key k t ≡ some w → get_key k (set_key k v t) ≡ some v
unfolding get_key set_key
get_key-set_key_self k v w (obj fs) h =
    rw (lookup-insert k k v fs) (ground (arith, list_eqb_iff k k))
get_key-set_key_self k v w (arr vs) h = get_item-set_item_self 0 k v w vs h
get_key-set_key_self k v w t h = cc

get_key-set_key_ne : (j k : Text) (v t : Value) → k ≢ j → get_key j (set_key k v t) ≡ get_key j t
unfolding get_key set_key
get_key-set_key_ne j k v (obj fs) h = rw (lookup-insert j k v fs) (ground (arith, list_eqb_iff k j))
get_key-set_key_ne j k v (arr vs) h = get_item-set_item_ne 0 j k v vs h
get_key-set_key_ne j k v t h = refl

-- A value with a member is a container, so the loop of `setByPath` keeps it.
container_of_get_key : (k : Text) (v t : Value) → get_key k t ≡ some v → container (some t) ≡ t
unfolding get_key container
container_of_get_key k v (obj fs) h = refl
container_of_get_key k v (arr vs) h = refl
container_of_get_key k v t h = cc

-- A path with a first key, as `getByPath` reads it.
get_by_path-cons :
    (k : Text) (ks : List Text) (v t : Value)
    → get_by_path t (k ∷ ks) ≡ some v
    → (w : Value) × (get_key k t ≡ some w) × (get_by_path w ks ≡ some v)
unfolding get_by_path
get_by_path-cons k ks v t h = elim (Option-cases (get_key k t)) [
  | inl missing ↦ absurd (ground arith)
  | inr (w, found) ↦ (w, found, ground arith)
]

get_by_path-set_by_path :
    (t : Value) (k : Text) (ks : List Text) (old v : Value)
    → get_by_path t (k ∷ ks) ≡ some old
    → get_by_path (set_by_path t (k ∷ ks) v) (k ∷ ks) ≡ some v
unfolding get_by_path set_by_path
get_by_path-set_by_path t k [] old v h =
    let (w, found, _) = get_by_path-cons k [] old t h in
    rw (get_key-set_key_self k v w t found, get_by_path)
get_by_path-set_by_path t k (j ∷ ks) old v h =
    let (w, found, rest) = get_by_path-cons k (j ∷ ks) old t h in
    let (x, inner, _) = get_by_path-cons j ks old w rest in
    rw (found, set_by_path)
      (rw (container_of_get_key j x w inner, set_by_path)
        (rw (get_key-set_key_self k (set_by_path w (j ∷ ks) v) w t found, get_by_path)
          (get_by_path-set_by_path w j ks old v rest)))

-- A path with a key; `setByPath` does nothing at the empty one.
abbrev pub IsPath : List Text → Type 0
IsPath [] = ⊥
IsPath (_ ∷ _) = Unit

-- A write at an existing path is read back.
pub get_by_path-set_by_path_self :
    (t : Value) (ks : List Text) (old v : Value)
    → IsPath ks
    → get_by_path t ks ≡ some old
    → get_by_path (set_by_path t ks v) ks ≡ some v
get_by_path-set_by_path_self t [] old v p h = absurd p
get_by_path-set_by_path_self t (k ∷ ks) old v p h = get_by_path-set_by_path t k ks old v h

-- Two paths part at some key, so neither is a prefix of the other.
abbrev pub Diverges : List Text → List Text → Type 0
Diverges (k ∷ ks) (j ∷ js) = (k ≢ j) ⊎ ((k ≡ j) × Diverges ks js)
Diverges _ _ = ⊥

-- A write at an existing path leaves every diverging path as it was.
pub get_by_path-set_by_path-Diverges :
    (t : Value) (ks js : List Text) (old v : Value)
    → Diverges ks js
    → get_by_path t ks ≡ some old
    → get_by_path (set_by_path t ks v) js ≡ get_by_path t js
unfolding get_by_path set_by_path
get_by_path-set_by_path-Diverges t (k ∷ []) (j ∷ js) old v (inl d) h =
    rw (get_key-set_key_ne j k v t d, get_by_path)
get_by_path-set_by_path-Diverges t (k ∷ []) (j ∷ js) old v (inr d) h = absurd d.1
get_by_path-set_by_path-Diverges t (k ∷ i ∷ ks) (j ∷ js) old v (inl d) h =
    rw (get_key-set_key_ne j k (set_by_path (container (get_key k t)) (i ∷ ks) v) t d, get_by_path)
get_by_path-set_by_path-Diverges t (k ∷ i ∷ ks) (j ∷ js) old v (inr (e, d)) h =
    let (w, found, rest) = get_by_path-cons k (i ∷ ks) old t h in
    let (x, inner, _) = get_by_path-cons i ks old w rest in
    let written : get_key k (set_key k (set_by_path w (i ∷ ks) v) t)
        ≡ some (set_by_path w (i ∷ ks) v) =
      get_key-set_key_self k (set_by_path w (i ∷ ks) v) w t found in
    rw (← e) (
      rw (found, set_by_path)
        (rw (container_of_get_key i x w inner, set_by_path)
          (rw (written, get_by_path)
            (get_by_path-set_by_path-Diverges w (i ∷ ks) js old v d rest
              ∙ sym (rw (found, get_by_path) refl)))))
get_by_path-set_by_path-Diverges t [] js old v d h = absurd d
get_by_path-set_by_path-Diverges t (k ∷ []) [] old v d h = absurd d
get_by_path-set_by_path-Diverges t (k ∷ i ∷ ks) [] old v d h = absurd d

-- A path with a tail is read in two parts.
pub get_by_path-append :
    (t v : Value) (ks js : List Text)
    → get_by_path t ks ≡ some v
    → get_by_path t (ks ++ js) ≡ get_by_path v js
unfolding get_by_path
get_by_path-append t v [] js h = ap (λ x. get_by_path x js) (some-injective t v h)
get_by_path-append t v (k ∷ ks) js h =
    let (w, found, rest) = get_by_path-cons k ks v t h in
    rw (found, get_by_path) (get_by_path-append w v ks js rest)
