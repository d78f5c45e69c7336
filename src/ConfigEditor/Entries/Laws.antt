-- ===== src/ConfigEditor/Entries/Laws.antt =====
-- Every listed row names an entry of the document.
use offckb.Base.{
  ℕ, suc, ◌≤◌, ◌≡◌, refl, inl, inr, ◌∙◌, none, some, List, [], ◌∷◌, ◌++◌, ◌==◌, text_eq,
  list_eqb_iff, list_eqb_refl, All, All-append, Bool-cases, arith,
}
use offckb.Base.Text.{Text, decimal, decimal_injective}
use offckb.Value.{
  Value, null, bool, num, str, arr, obj, Items, nil, cons, Fields, end, field, lookup, get_item,
}
use offckb.Value.Paths.{get_key, get_by_path}
use offckb.Value.Paths.Laws.{get_by_path-append}
use offckb.ConfigEditor.{Platform, DocumentId, type_of_toml_value, Editor, document}
use offckb.ConfigEditor.Inputs.{is_primitive}
use offckb.ConfigEditor.Entries.{
  TomlEntry, own_entry, walk, walk_items, walk_fields, get_entries_for_document,
}

-- A TOML value: it holds no null, and no table of it has a key twice.
unfoldable mutual
  pub IsToml : Value → Type 0
  IsToml (arr vs) = ItemsToml vs
  IsToml (obj fs) = FieldsToml fs
  IsToml (str s) = Unit
  IsToml (num n) = Unit
  IsToml (bool b) = Unit
  IsToml null = ⊥

  pub ItemsToml : Items → Type 0
  ItemsToml nil = Unit
  ItemsToml (cons v vs) = IsToml v × ItemsToml vs

  pub FieldsToml : Fields → Type 0
  FieldsToml end = Unit
  FieldsToml (field k v fs) = (lookup k fs ≡ none) × IsToml v × FieldsToml fs

-- An item found from place `i` on stands at a place from `i` on.
get_item-place :
    (i : ℕ) (k : Text) (vs : Items) (v : Value)
    → get_item i k vs ≡ some v
    → (j : ℕ) × (i ≤ j) × (decimal j ≡ k)
unfolding get_item
get_item-place i k nil v h = cc
get_item-place i k (cons w vs) v h = elim (Bool-cases (decimal i == k)) [
  | inl here ↦ (i, omega arith, (list_eqb_iff (decimal i) k).0 here)
  | inr later ↦
      let (j, le, at) = get_item-place (suc i) k vs v (rw later at h) in (j, omega arith, at)
]

get_item-cons :
    (i : ℕ) (k : Text) (w v : Value) (vs : Items)
    → get_item (suc i) k vs ≡ some v
    → get_item i k (cons w vs) ≡ some v
unfolding get_item
get_item-cons i k w v vs h =
    let (j, le, at) = get_item-place (suc i) k vs v h in
    ground (arith, list_eqb_iff (decimal i) k, decimal_injective i j)

get_item-first : (i : ℕ) (v : Value) (vs : Items) → get_item i (decimal i) (cons v vs) ≡ some v
unfolding get_item
get_item-first i v vs = rw (list_eqb_refl (decimal i))

lookup-first : (j : Text) (v : Value) (fs : Fields) → lookup j (field j v fs) ≡ some v
unfolding lookup
lookup-first j v fs = rw (list_eqb_refl j)

lookup-field :
    (k j : Text) (w v : Value) (fs : Fields)
    → lookup j fs ≡ none
    → lookup k fs ≡ some v
    → lookup k (field j w fs) ≡ some v
unfolding lookup
lookup-field k j w v fs absent h = ground (arith, list_eqb_iff j k)

-- The row's path leads to a value of the row's type, and the row can be edited exactly if that is
-- a primitive.
abbrev pub IsEntry : Value → TomlEntry → Type 0
IsEntry root t =
    (v : Value) × (get_by_path root t.path ≡ some v)
    × (t.type ≡ type_of_toml_value v)
    × (t.editable ≡ is_primitive v)

module _ (p : Platform) (id : DocumentId) (root : Value) where
  own_entry-IsEntry :
      (v : Value) (path : List Text)
      → IsToml v
      → get_by_path root path ≡ some v
      → All (IsEntry root) (own_entry p id v path)
  unfolding own_entry IsToml
  own_entry-IsEntry v [] toml h = tt
  own_entry-IsEntry v (k ∷ ks) toml h = ((v, h, refl, ground arith), tt)

  -- A path one key further on.
  further :
      (path : List Text) (k : Text) (v w : Value)
      → get_by_path root path ≡ some v
      → get_key k v ≡ some w
      → get_by_path root (path ++ k ∷ []) ≡ some w
  unfolding get_by_path
  further path k v w h found = get_by_path-append root v path (k ∷ []) h ∙ rw (found, get_by_path)

  mutual
    unfolding walk IsToml get_key

    walk-IsEntry :
        (v : Value) (path : List Text)
        → IsToml v
        → get_by_path root path ≡ some v
        → All (IsEntry root) (walk p id v path)
    walk-IsEntry (arr vs) path toml h =
        All-append (IsEntry root) _ _ (own_entry-IsEntry (arr vs) path toml h)
          (walk_items-IsEntry vs 0 path toml (λ k w found. further path k (arr vs) w h found))
    walk-IsEntry (obj fs) path toml h =
        All-append (IsEntry root) _ _ (own_entry-IsEntry (obj fs) path toml h)
          (walk_fields-IsEntry fs path toml (λ k w found. further path k (obj fs) w h found))
    walk-IsEntry (str s) path toml h = own_entry-IsEntry (str s) path toml h
    walk-IsEntry (num n) path toml h = own_entry-IsEntry (num n) path toml h
    walk-IsEntry (bool b) path toml h = own_entry-IsEntry (bool b) path toml h
    walk-IsEntry null path toml h = absurd toml

    walk_items-IsEntry :
        (vs : Items) (i : ℕ) (path : List Text)
        → ItemsToml vs
        → ((k : Text) (w : Value)
            → get_item i k vs ≡ some w
            → get_by_path root (path ++ k ∷ []) ≡ some w)
        → All (IsEntry root) (walk_items p id i vs path)
    walk_items-IsEntry nil i path toml reach = tt
    walk_items-IsEntry (cons v vs) i path toml reach =
        All-append (IsEntry root) _ _
          (walk-IsEntry v (path ++ decimal i ∷ []) toml.0
            (reach (decimal i) v (get_item-first i v vs)))
          (walk_items-IsEntry vs (suc i) path toml.1
            (λ k w found. reach k w (get_item-cons i k v w vs found)))

    walk_fields-IsEntry :
        (fs : Fields) (path : List Text)
        → FieldsToml fs
        → ((k : Text) (w : Value)
            → lookup k fs ≡ some w
            → get_by_path root (path ++ k ∷ []) ≡ some w)
        → All (IsEntry root) (walk_fields p id fs path)
    walk_fields-IsEntry end path toml reach = tt
    walk_fields-IsEntry (field j v fs) path toml reach =
        All-append (IsEntry root) _ _
          (walk-IsEntry v (path ++ j ∷ []) toml.1 (reach j v (lookup-first j v fs)))
          (walk_fields-IsEntry fs path toml.2
            (λ k w found. reach k w (lookup-field k j v w fs toml.0 found)))

-- Each row that is listed for a document of TOML names, by its path, an entry that stands there, with
-- its type.
pub get_entries_for_document-IsEntry :
    (p : Platform) (id : DocumentId) (e : Editor)
    → IsToml (document id e)
    → All (IsEntry (document id e)) (get_entries_for_document p id e)
unfolding get_entries_for_document get_by_path
get_entries_for_document-IsEntry p id e toml =
    walk-IsEntry p id (document id e) (document id e) [] toml refl
