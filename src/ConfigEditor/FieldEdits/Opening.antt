-- ===== src/ConfigEditor/FieldEdits/Opening.antt =====
-- The constructor of `DevnetConfigEditor`.
use mathlib.Core.Path.{subst}
use offckb.Base.{
  ◌≡◌, refl, inl, inr, ◌∙◌, sym, ap, true, some, List, [], ◌∷◌, All, text_eq, list_eqb_iff,
  list_eqb_refl, Option-cases, ok, >>=-eq-ok, ok-injective, arith,
}
use offckb.Base.Text.{Text}
use offckb.Value.{Value, Fields, end, lookup, insert}
use offckb.Value.Paths.{get_by_path}
use offckb.Value.Paths.Laws.{lookup-insert}
use offckb.ConfigEditor.{Platform, DocumentId, ckb, miner, FieldDefinition, Editor, document}
use offckb.ConfigEditor.FieldEdits.{
  editable_field_definitions, has_type, read_field, read_fields, new_editor,
}
use offckb.ConfigEditor.FieldEdits.Table.{Apart, Rows, table_Rows}
use offckb.ConfigEditor.FieldEdits.Stores.{IsHeld, IsSynchronised}

abbrev with_values : Fields → Editor → Editor
with_values values e = record e { values = values }

document-with_values :
    (i : DocumentId) (values : Fields) (e : Editor)
    → document i (with_values values e) ≡ document i e
document-with_values ckb values e = refl
document-with_values miner values e = refl

-- A round that succeeds has read a value of the row's type and recorded it.
read_field-eq-ok :
    (e : Editor) (d : FieldDefinition) (start values : Fields)
    → read_field e d start ≡ ok values
    → (v : Value) × (get_by_path (document d.file e) d.path ≡ some v)
      × (has_type d.type v ≡ true)
      × (insert d.id v start ≡ values)
unfolding read_field
read_field-eq-ok e d start values h = elim (Option-cases (get_by_path (document d.file e) d.path)) [
  | inl missing ↦ absurd (ground arith)
  | inr (v, found) ↦ (v, found, ground arith, ground arith)
]

-- The document's value at the row's path has the row's type and is the recorded one.
abbrev IsRecorded : Editor → Fields → FieldDefinition → Type 0
IsRecorded e values d =
    (v : Value) × (get_by_path (document d.file e) d.path ≡ some v)
    × (lookup d.id values ≡ some v)
    × (has_type d.type v ≡ true)

read_field-records :
    (e : Editor) (d : FieldDefinition) (start values : Fields)
    → read_field e d start ≡ ok values
    → IsRecorded e values d
read_field-records e d start values h =
    let (v, found, typed, state) = read_field-eq-ok e d start values h in
    (
      v,
      found,
      ap (lookup d.id) (sym state) ∙ lookup-insert d.id d.id v start ∙ rw (list_eqb_refl d.id),
      typed,
    )

-- A round keeps what is recorded at the rows apart from its own.
read_field-keeps :
    (e : Editor) (d c : FieldDefinition) (start values : Fields)
    → Apart d c
    → read_field e d start ≡ ok values
    → IsRecorded e start c
    → IsRecorded e values c
read_field-keeps e d c start values (inl (same, _)) h held =
    subst (IsRecorded e values) same (read_field-records e d start values h)
read_field-keeps e d c start values (inr (differ, _)) h (w, doc, val, ty) =
    let (v, _, _, state) = read_field-eq-ok e d start values h in
    (
      w,
      doc,
      ap (lookup c.id) (sym state)
          ∙ lookup-insert c.id d.id v start
          ∙ ground (arith, list_eqb_iff d.id c.id),
      ty,
    )

read_fields-keeps :
    (e : Editor) (c : FieldDefinition) (ds : List FieldDefinition) (start values : Fields)
    → All (λ d. Apart d c) ds
    → read_fields e ds start ≡ ok values
    → IsRecorded e start c
    → IsRecorded e values c
unfolding read_fields
read_fields-keeps e c [] start values apart h held =
    let done : start ≡ values = cc in subst (λ x. IsRecorded e x c) done held
read_fields-keeps e c (d ∷ ds) start values apart h held =
    let (next, first, rest) = >>=-eq-ok (read_field e d start) _ h in
    read_fields-keeps e c ds next values apart.1 rest
      (read_field-keeps e d c start next apart.0 first held)

read_fields-records :
    (e : Editor) (ds : List FieldDefinition) (start values : Fields)
    → Rows ds
    → read_fields e ds start ≡ ok values
    → All (IsRecorded e values) ds
unfolding read_fields
read_fields-records e [] start values apart h = tt
read_fields-records e (d ∷ ds) start values (below, apart) h =
    let (next, first, rest) = >>=-eq-ok (read_field e d start) _ h in
    (
      read_fields-keeps e d ds next values below rest (read_field-records e d start next first),
      read_fields-records e ds next values apart rest,
    )

IsRecorded→IsHeld :
    (e : Editor) (values : Fields) (d : FieldDefinition)
    → IsRecorded e values d
    → IsHeld (with_values values e) d
IsRecorded→IsHeld e values d (v, doc, val, ty) =
    (v, ap (λ t. get_by_path t d.path) (document-with_values d.file values e) ∙ doc, val, ty)

All-imp :
    {A : Type 0} (P Q : A → Type 0) → ((a : A) → P a → Q a) → (xs : List A) → All P xs → All Q xs
All-imp P Q f [] h = tt
All-imp P Q f (x ∷ xs) h = (f x h.0, All-imp P Q f xs h.1)

-- An editor that is opened has, for each editable field, one value of its type, recorded and in the
-- document alike, and it holds the two documents as they were read.
pub new_editor-IsSynchronised :
    (p : Platform) (config_path : Text) (ckb_config miner_config : Value) (e : Editor)
    → new_editor p config_path ckb_config miner_config ≡ ok e
    → IsSynchronised e × (e.ckb_config ≡ ckb_config) × (e.miner_config ≡ miner_config)
unfolding new_editor
new_editor-IsSynchronised p config_path ckb_config miner_config e h =
    let (values, read, built) = >>=-eq-ok (read_fields _ editable_field_definitions end) _ h in
    (
      subst IsSynchronised (ok-injective _ _ built) (
          All-imp _ _ (IsRecorded→IsHeld _ values) editable_field_definitions
            (read_fields-records _ editable_field_definitions end values table_Rows read)),
      ap (λ (x : Editor). x.ckb_config) (sym (ok-injective _ _ built)),
      ap (λ (x : Editor). x.miner_config) (sym (ok-injective _ _ built)),
    )
