-- ===== src/ConfigEditor/FieldEdits/Stores.antt =====
-- What a store to one field leaves at every field.
use mathlib.Core.Path.{subst}
use mathlib.Core.Option.{some-injective}
use offckb.Base.{
  ◌≡◌, refl, ◌⊎◌, inl, inr, ◌∙◌, sym, ap, true, false, some, List, [], ◌∷◌, All, if◌then◌else◌,
  ◌==◌, text_eq, list_eqb_iff, list_eqb_refl, Bool-cases, Option-cases, ok, arith,
}
use offckb.Base.Text.{Text}
use offckb.Value.{Value, lookup}
use offckb.Value.Paths.{get_by_path, set_by_path}
use offckb.Value.Paths.Laws.{
  lookup-insert, Diverges, IsPath, get_by_path-set_by_path_self, get_by_path-set_by_path-Diverges,
}
use offckb.ConfigEditor.{
  Platform, DocumentId, ckb, miner, FieldDefinition, Editor, document, with_document,
}
use offckb.ConfigEditor.FieldEdits.{
  editable_field_definitions, find_definition, has_type, field_definition, get_field, store,
  read_input,
}
use offckb.ConfigEditor.FieldEdits.Table.{Apart, table_Apart, same_file, other_document}

-- The document and the recorded values hold one value of the field's type.
abbrev pub IsHeld : Editor → FieldDefinition → Type 0
IsHeld e d =
    (v : Value) × (get_by_path (document d.file e) d.path ≡ some v)
    × (lookup d.id e.values ≡ some v)
    × (has_type d.type v ≡ true)

abbrev pub IsSynchronised : Editor → Type 0
IsSynchronised e = All (IsHeld e) editable_field_definitions

pub read_input-has_type :
    (p : Platform) (d : FieldDefinition) (raw : Text) (v : Value)
    → read_input p d raw ≡ ok v
    → has_type d.type v ≡ true
unfolding read_input
read_input-has_type p d raw v h = ground arith

pub document-with_document :
    (i : DocumentId) (v : Value) (e : Editor) → document i (with_document i v e) ≡ v
document-with_document ckb v e = refl
document-with_document miner v e = refl

pub document-store :
    (i : DocumentId) (d : FieldDefinition) (v : Value) (e : Editor)
    → document i (store d v e)
      ≡ document i (with_document d.file (set_by_path (document d.file e) d.path v) e)
unfolding store
document-store ckb d v e = refl
document-store miner d v e = refl

pub lookup-store :
    (c d : FieldDefinition) (v : Value) (e : Editor)
    → lookup c.id (store d v e).values ≡ (if d.id == c.id then some v else lookup c.id e.values)
unfolding store
lookup-store c d v e = lookup-insert c.id d.id v e.values

-- What is stored is held.
pub store-IsHeld_self :
    (d : FieldDefinition) (v : Value) (e : Editor)
    → IsPath d.path
    → has_type d.type v ≡ true
    → IsHeld e d
    → IsHeld (store d v e) d
store-IsHeld_self d v e path typed (old, doc, _, _) = (
  v,
  rw (document-store d.file d v e, document-with_document)
      (get_by_path-set_by_path_self (document d.file e) d.path old v path doc),
  rw (lookup-store d d v e, list_eqb_refl d.id),
  typed,
)

-- A write of one document at a path leaves the diverging paths of both documents.
pub write-get-Diverges :
    (i j : DocumentId) (e : Editor) (ks js : List Text) (old v : Value)
    → Diverges ks js
    → get_by_path (document i e) ks ≡ some old
    → get_by_path (document j (with_document i (set_by_path (document i e) ks v) e)) js
      ≡ get_by_path (document j e) js
write-get-Diverges ckb ckb e ks js old v d h =
    get_by_path-set_by_path-Diverges e.ckb_config ks js old v d h
write-get-Diverges miner miner e ks js old v d h =
    get_by_path-set_by_path-Diverges e.miner_config ks js old v d h
write-get-Diverges ckb miner e ks js old v d h = refl
write-get-Diverges miner ckb e ks js old v d h = refl

-- The value that is at another row's path after a store.
pub store-other_path :
    (d c : FieldDefinition) (v : Value) (e : Editor)
    → (same_file d.file c.file ≡ false) ⊎ Diverges d.path c.path
    → IsHeld e d
    → get_by_path (document c.file (store d v e)) c.path ≡ get_by_path (document c.file e) c.path
store-other_path d c v e (inl file) held =
    rw (document-store c.file d v e)
      (ap (λ t. get_by_path t c.path) (other_document d.file c.file _ e file))
store-other_path d c v e (inr path) (old, doc, _, _) =
    rw (document-store c.file d v e)
      (write-get-Diverges d.file c.file e d.path c.path old v path doc)

-- A stored value keeps every field that is held.
pub store-IsHeld :
    (d c : FieldDefinition) (v : Value) (e : Editor)
    → Apart d c
    → has_type d.type v ≡ true
    → IsHeld e d
    → IsHeld e c
    → IsHeld (store d v e) c
store-IsHeld d c v e (inl (same, path)) typed held _ =
    subst (λ r. IsHeld (store d v e) r) same (store-IsHeld_self d v e path typed held)
store-IsHeld d c v e (inr (differ, elsewhere)) typed held (w, doc, val, ty) = (
  w,
  store-other_path d c v e elsewhere held ∙ doc,
  lookup-store c d v e ∙ ground (arith, list_eqb_iff d.id c.id),
  ty,
)

pub All-map :
    {A : Type 0} (P Q R : A → Type 0)
    → ((a : A) → P a → Q a → R a)
    → (xs : List A) → All P xs
    → All Q xs
    → All R xs
All-map P Q R f [] p q = tt
All-map P Q R f (x ∷ xs) p q = (f x p.0 q.0, All-map P Q R f xs p.1 q.1)

-- A row that is found is in the table, with the id that was asked for.
pub find_definition-All :
    (P : FieldDefinition → Type 0) (id : Text) (ds : List FieldDefinition) (d : FieldDefinition)
    → find_definition id ds ≡ some d
    → All P ds
    → P d × (d.id ≡ id)
unfolding find_definition
find_definition-All P id [] d h a = cc
find_definition-All P id (c ∷ ds) d h a = elim (Bool-cases (c.id == id)) [
  | inl same ↦
      let e : c ≡ d = some-injective c d (rw same at h) in
      (subst P e a.0, ap (λ (r : FieldDefinition). r.id) (sym e) ∙ (list_eqb_iff c.id id).0 same)
  | inr other ↦ find_definition-All P id ds d (rw other at h) a.1
]

pub field_definition-found :
    (id : Text) (d : FieldDefinition)
    → field_definition id ≡ ok d
    → find_definition id editable_field_definitions ≡ some d
field_definition-found id d h =
    elim (Option-cases (find_definition id editable_field_definitions)) [
      | inl missing ↦ absurd (ground arith)
      | inr (c, found) ↦ ground arith
    ]

-- A store to a row of the table keeps the editor synchronised.
pub store-IsSynchronised :
    (id : Text) (d : FieldDefinition) (v : Value) (e : Editor)
    → field_definition id ≡ ok d
    → has_type d.type v ≡ true
    → IsSynchronised e
    → IsSynchronised (store d v e)
store-IsSynchronised id d v e h typed sync =
    let found = field_definition-found id d h in
    let (held, _) = find_definition-All (IsHeld e) id editable_field_definitions d found sync in
    let (apart, _) =
      find_definition-All (λ r. All (Apart r) editable_field_definitions) id
        editable_field_definitions d found table_Apart in
    All-map (Apart d) (IsHeld e) (IsHeld (store d v e)) (λ c a. store-IsHeld d c v e a typed held)
      editable_field_definitions apart sync

-- What `getField` reads after a store.
pub get_field-store :
    (id : Text) (d : FieldDefinition) (v : Value) (e : Editor)
    → field_definition id ≡ ok d
    → get_field id (store d v e) ≡ ok (d, some v)
unfolding get_field
get_field-store id d v e h =
    rw h (ap (λ o. ok (d, o)) (lookup-store d d v e ∙ rw (list_eqb_refl d.id)))
