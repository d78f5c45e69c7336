-- ===== src/Fiber/NodeConfig/Merging.antt =====
-- What is found in a merged configuration.
use mathlib.Core.Option.{some-injective}
use mathlib.Core.Path.{subst}
use offckb.Base.{
  ◌≡◌, ◌⊎◌, inl, inr, refl, sym, ap, ◌∙◌, Bool, true, false, Option, none, some, List, [], ◌∷◌,
  text_eq, list_eqb, list_eqb_iff, Bool-cases, Option-cases, arith,
}
use offckb.Base.Text.{Text}
use offckb.Value.{Value, null, bool, num, str, arr, obj, Fields, end, field, lookup, insert}
use offckb.Value.Paths.Laws.{lookup-insert}
use offckb.Fiber.Nodes.{value_at}
use offckb.Fiber.NodeConfig.{merge_value, merge_node_config}

-- A mapping has each of its keys once, at every depth.
unfoldable mutual
  pub IsMapping : Value → Type 0
  IsMapping (obj fs) = HasKeysOnce fs
  IsMapping _ = Unit

  pub HasKeysOnce : Fields → Type 0
  HasKeysOnce end = Unit
  HasKeysOnce (field k v fs) = (lookup k fs ≡ none) × IsMapping v × HasKeysOnce fs

abbrev pub is_mapping : Value → Bool
is_mapping (obj _) = true
is_mapping _ = false

pub leaf-HasKeysOnce : (k : Text) (v : Value) → is_mapping v ≡ false → HasKeysOnce (field k v end)
unfolding HasKeysOnce lookup
leaf-HasKeysOnce k (obj fs) h = absurd (ground arith)
leaf-HasKeysOnce k null h = (refl, tt, tt)
leaf-HasKeysOnce k (bool b) h = (refl, tt, tt)
leaf-HasKeysOnce k (num n) h = (refl, tt, tt)
leaf-HasKeysOnce k (str t) h = (refl, tt, tt)
leaf-HasKeysOnce k (arr vs) h = (refl, tt, tt)

abbrev pub merged : Option Value → Option Value → Option Value
merged o none = o
merged o (some v) = some (merge_value o v)

pub lookup-merge_node_config :
    (k : Text) (base fs : Fields)
    → HasKeysOnce fs
    → lookup k (merge_node_config base fs) ≡ merged (lookup k base) (lookup k fs)
unfolding merge_node_config lookup HasKeysOnce
lookup-merge_node_config k base end h = refl
lookup-merge_node_config k base (field j v fs) h =
    lookup-merge_node_config k (insert j (merge_value (lookup j base) v) base) fs h.2
    ∙ rw (lookup-insert k j (merge_value (lookup j base) v) base)
        (elim (Bool-cases (list_eqb j k)) [
          | inl b ↦ let same = (list_eqb_iff j k).0 b in rw (b, sym same, h.0) refl
          | inr b ↦ rw b refl
        ])

-- No value of an override cuts a path off: what it has on the way is a mapping.
unfoldable pub LeavesOpen : Fields → List Text → Type 0
LeavesOpen fs [] = Unit
LeavesOpen fs (k ∷ []) = Unit
LeavesOpen fs (k ∷ j ∷ ks) =
    (lookup k fs ≡ none) ⊎ ((gs : Fields) × (lookup k fs ≡ some (obj gs)) × LeavesOpen gs (j ∷ ks))

pub value_at_found :
    (k : Text) (ks : List Text) (fs : Fields) (v : Value)
    → lookup k fs ≡ some v
    → value_at (obj fs) (k ∷ ks) ≡ value_at v ks
unfolding value_at
value_at_found k ks fs v h = ground arith

value_at_same :
    (k : Text) (ks : List Text) (fs gs : Fields)
    → lookup k fs ≡ lookup k gs
    → value_at (obj fs) (k ∷ ks) ≡ value_at (obj gs) (k ∷ ks)
unfolding value_at
value_at_same k ks fs gs h = ground arith

leaf_found :
    (k : Text) (fs : Fields) (v : Value)
    → lookup k fs ≡ some v
    → value_at (obj fs) (k ∷ []) ≡ none
    → ⊥
unfolding value_at
leaf_found k fs v found gone = ground arith

lookup-HasKeysOnce :
    (k : Text) (fs : Fields) (v : Value) → HasKeysOnce fs → lookup k fs ≡ some v → IsMapping v
unfolding lookup HasKeysOnce
lookup-HasKeysOnce k end v h found = cc
lookup-HasKeysOnce k (field j w fs) v h found = elim (Bool-cases (list_eqb j k)) [
  | inl b ↦ subst IsMapping (some-injective w v (ground (arith, b, found))) h.1
  | inr b ↦ lookup-HasKeysOnce k fs v h.2 (ground (arith, b, found))
]

mapping_keys : (fs : Fields) → IsMapping (obj fs) → HasKeysOnce fs
unfolding IsMapping
mapping_keys fs h = h

-- Two keys and on: a value that is not there and not cut off is not there in a mapping either.
merge_value-keeps :
    (o : Option Value) (gs : Fields) (j : Text) (ks : List Text)
    → ((es : Fields)
        → value_at (obj (merge_node_config es gs)) (j ∷ ks) ≡ value_at (obj es) (j ∷ ks))
    → value_at (obj gs) (j ∷ ks) ≡ none
    → value_at (merge_value o (obj gs)) (j ∷ ks)
      ≡ (elim o [ none ↦ none | some v ↦ value_at v (j ∷ ks) ])
unfolding value_at merge_node_config
merge_value-keeps none gs j ks ih gone = gone
merge_value-keeps (some (obj es)) gs j ks ih gone = ih es
merge_value-keeps (some null) gs j ks ih gone = gone
merge_value-keeps (some (bool b)) gs j ks ih gone = gone
merge_value-keeps (some (num n)) gs j ks ih gone = gone
merge_value-keeps (some (str s)) gs j ks ih gone = gone
merge_value-keeps (some (arr vs)) gs j ks ih gone = gone

value_at_cons :
    (k : Text) (ks : List Text) (fs : Fields)
    → value_at (obj fs) (k ∷ ks) ≡ (elim (lookup k fs) [ none ↦ none | some v ↦ value_at v ks ])
unfolding value_at
value_at_cons k ks fs = refl

-- A path at which an override has nothing, and that it does not cut off, leads to what it led to.
pub merge_node_config-keeps :
    (base fs : Fields) (k : Text) (ks : List Text)
    → HasKeysOnce fs
    → value_at (obj fs) (k ∷ ks) ≡ none
    → LeavesOpen fs (k ∷ ks)
    → value_at (obj (merge_node_config base fs)) (k ∷ ks) ≡ value_at (obj base) (k ∷ ks)
unfolding LeavesOpen
merge_node_config-keeps base fs k [] h gone leaves = elim (Option-cases (lookup k fs)) [
  | inl missing ↦
      value_at_same k [] (merge_node_config base fs) base
        (lookup-merge_node_config k base fs h ∙ ap (merged (lookup k base)) missing)
  | inr (v, found) ↦ absurd (leaf_found k fs v found gone)
]
merge_node_config-keeps base fs k (j ∷ ks) h gone (inl missing) =
    value_at_same k (j ∷ ks) (merge_node_config base fs) base
      (lookup-merge_node_config k base fs h ∙ ap (merged (lookup k base)) missing)
merge_node_config-keeps base fs k (j ∷ ks) h gone (inr (gs, found, leaves)) =
    let once = mapping_keys gs (lookup-HasKeysOnce k fs (obj gs) h found) in
    let gone' = sym (value_at_found k (j ∷ ks) fs (obj gs) found) ∙ gone in
    value_at_found k (j ∷ ks) (merge_node_config base fs) (merge_value (lookup k base) (obj gs))
      (lookup-merge_node_config k base fs h ∙ ap (merged (lookup k base)) found)
    ∙ merge_value-keeps (lookup k base) gs j ks
        (λ es. merge_node_config-keeps es gs j ks once gone' leaves) gone'
    ∙ sym (value_at_cons k (j ∷ ks) base)

pub merge_value-leaf : (o : Option Value) (v : Value) → is_mapping v ≡ false → merge_value o v ≡ v
unfolding merge_value
merge_value-leaf none v h = refl
merge_value-leaf (some w) (obj fs) h = absurd (ground arith)
merge_value-leaf (some w) null h = ground arith
merge_value-leaf (some w) (bool b) h = ground arith
merge_value-leaf (some w) (num n) h = ground arith
merge_value-leaf (some w) (str t) h = ground arith
merge_value-leaf (some w) (arr vs) h = ground arith

merge_value-sets :
    (o : Option Value) (gs : Fields) (j : Text) (ks : List Text) (v : Value)
    → ((es : Fields) → value_at (obj (merge_node_config es gs)) (j ∷ ks) ≡ some v)
    → value_at (obj gs) (j ∷ ks) ≡ some v
    → value_at (merge_value o (obj gs)) (j ∷ ks) ≡ some v
unfolding merge_value
merge_value-sets (some (obj es)) gs j ks v ih found = ih es
merge_value-sets o gs j ks v ih found = found

value_at-keys :
    (w : Value) (j : Text) (ks : List Text) (v : Value)
    → value_at w (j ∷ ks) ≡ some v
    → (gs : Fields) × (w ≡ obj gs)
unfolding value_at
value_at-keys (obj gs) j ks v at = (gs, refl)
value_at-keys null j ks v at = absurd (ground arith)
value_at-keys (bool b) j ks v at = absurd (ground arith)
value_at-keys (num n) j ks v at = absurd (ground arith)
value_at-keys (str t) j ks v at = absurd (ground arith)
value_at-keys (arr vs) j ks v at = absurd (ground arith)

value_at-first :
    (k : Text) (ks : List Text) (fs : Fields) (v : Value)
    → value_at (obj fs) (k ∷ ks) ≡ some v
    → (w : Value) × (lookup k fs ≡ some w) × (value_at w ks ≡ some v)
value_at-first k ks fs v at = elim (Option-cases (lookup k fs)) [
  | inl missing ↦ absurd (ground (arith, value_at_cons k ks fs, missing, at))
  | inr (w, there) ↦ (w, there, sym (value_at_found k ks fs w there) ∙ at)
]

value_at-inner :
    (k j : Text) (ks : List Text) (fs : Fields) (v : Value)
    → value_at (obj fs) (k ∷ j ∷ ks) ≡ some v
    → (gs : Fields) × (lookup k fs ≡ some (obj gs)) × (value_at (obj gs) (j ∷ ks) ≡ some v)
value_at-inner k j ks fs v at =
    let (w, there, inner) = value_at-first k (j ∷ ks) fs v at in
    let (gs, same) = value_at-keys w j ks v inner in
    (gs, there ∙ ap some same, subst (λ x. value_at x (j ∷ ks) ≡ some v) same inner)

pub value_at_end : (v : Value) → value_at v [] ≡ some v
unfolding value_at
value_at_end v = refl

-- What an override sets at the end of a path, other than a mapping, is found there, whatever the
-- base has on the way or in its place.
pub merge_node_config-sets :
    (base fs : Fields) (k : Text) (ks : List Text) (v : Value)
    → HasKeysOnce fs
    → value_at (obj fs) (k ∷ ks) ≡ some v
    → is_mapping v ≡ false
    → value_at (obj (merge_node_config base fs)) (k ∷ ks) ≡ some v
merge_node_config-sets base fs k [] v h found leaf =
    let (w, there, last) = value_at-first k [] fs v found in
    let same = some-injective w v (sym (value_at_end w) ∙ last) in
    value_at_found k [] (merge_node_config base fs) v (
      lookup-merge_node_config k base fs h
      ∙ ap (merged (lookup k base)) (there ∙ ap some same)
      ∙ ap some (merge_value-leaf (lookup k base) v leaf))
    ∙ value_at_end v
merge_node_config-sets base fs k (j ∷ ks) v h found leaf =
    let (gs, there, inner) = value_at-inner k j ks fs v found in
    let once = mapping_keys gs (lookup-HasKeysOnce k fs (obj gs) h there) in
    value_at_found k (j ∷ ks) (merge_node_config base fs) (merge_value (lookup k base) (obj gs))
      (lookup-merge_node_config k base fs h ∙ ap (merged (lookup k base)) there)
    ∙ merge_value-sets (lookup k base) gs j ks v
        (λ es. merge_node_config-sets es gs j ks v once inner leaf) inner
