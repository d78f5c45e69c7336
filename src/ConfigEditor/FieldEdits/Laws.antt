-- ===== src/ConfigEditor/FieldEdits/Laws.antt =====
-- The recorded values of the fields agree with the documents.
use mathlib.Core.Path.{subst}
use offckb.Base.{
  ◌≡◌, refl, inl, inr, Bool, true, not, some, text_eq, Option-cases, ok, >>=-eq-ok, arith,
}
use offckb.Base.Text.{Text}
use offckb.Value.{Value, bool, lookup}
use offckb.ConfigEditor.{Platform, FieldDefinition, Editor, boolean_type}
use offckb.ConfigEditor.FieldEdits.{
  editable_field_definitions, find_definition, has_type, field_definition, get_field, store,
  read_input, set_field_value, toggle_boolean_field, negate,
}
use offckb.ConfigEditor.FieldEdits.Stores.{
  IsHeld, IsSynchronised, read_input-has_type, find_definition-All, field_definition-found,
  store-IsSynchronised, get_field-store,
}

-- The steps of a successful `setFieldValue`.
set_field_value-eq-ok :
    (p : Platform) (id raw : Text) (e e' : Editor) (v : Value)
    → set_field_value p id raw e ≡ ok (v, e')
    → (d : FieldDefinition) × (field_definition id ≡ ok d)
      × (read_input p d raw ≡ ok v)
      × (store d v e ≡ e')
unfolding set_field_value
set_field_value-eq-ok p id raw e e' v h =
    let (d, known, h') = >>=-eq-ok (field_definition id) _ h in
    let (w, read, h'') = >>=-eq-ok (read_input p d raw) _ h' in (d, known, cc, cc)

-- When a field is set, each editable field still has one value of its type, recorded and in the
-- document alike, as before, and the field that was set has the value that is returned.
pub set_field_value-IsSynchronised :
    (p : Platform) (id raw : Text) (e e' : Editor) (v : Value)
    → IsSynchronised e
    → set_field_value p id raw e ≡ ok (v, e')
    → IsSynchronised e' × ((d : FieldDefinition) × (get_field id e' ≡ ok (d, some v)))
set_field_value-IsSynchronised p id raw e e' v sync h =
    let (d, known, read, state) = set_field_value-eq-ok p id raw e e' v h in
    subst (λ x. IsSynchronised x × ((d : FieldDefinition) × (get_field id x ≡ ok (d, some v))))
      state
      (
        store-IsSynchronised id d v e known (read_input-has_type p d raw v read) sync,
        (d, get_field-store id d v e known),
      )

toggle_boolean_field-eq-ok :
    (id : Text) (e e' : Editor) (v : Value)
    → toggle_boolean_field id e ≡ ok (v, e')
    → (d : FieldDefinition) × (field_definition id ≡ ok d)
      × (d.type ≡ boolean_type)
      × (v ≡ bool (negate (lookup d.id e.values)))
      × (store d v e ≡ e')
unfolding toggle_boolean_field get_field
toggle_boolean_field-eq-ok id e e' v h =
    elim (Option-cases (find_definition id editable_field_definitions)) [
      | inl missing ↦ absurd (ground arith)
      | inr (d, found) ↦ (d, ground arith, ground arith, ground arith, ground arith)
    ]

bool_of_has_type : (v : Value) → has_type boolean_type v ≡ true → (b : Bool) × (v ≡ bool b)
bool_of_has_type (bool b) h = (b, refl)
bool_of_has_type v h = cc

-- When a Boolean field is toggled, the recorded values and the documents still agree on each field,
-- as before, and the field has the negation of the Boolean that it had.
pub toggle_boolean_field-IsSynchronised :
    (id : Text) (e e' : Editor) (v : Value)
    → IsSynchronised e
    → toggle_boolean_field id e ≡ ok (v, e')
    → IsSynchronised e'
      × ((d : FieldDefinition) × (b : Bool) × (get_field id e ≡ ok (d, some (bool b)))
          × (get_field id e' ≡ ok (d, some (bool (not b)))))
unfolding get_field
toggle_boolean_field-IsSynchronised id e e' v sync h =
    let (d, known, type, value, state) = toggle_boolean_field-eq-ok id e e' v h in
    let found = field_definition-found id d known in
    let ((w, _, recorded, typed), _) =
      find_definition-All (IsHeld e) id editable_field_definitions d found sync in
    let (b, boolean) = bool_of_has_type w (rw type at typed) in
    let flipped : v ≡ bool (not b) = rw (value, recorded, boolean) in
    let v_typed : has_type d.type v ≡ true = rw (type, flipped) in
    (
      subst IsSynchronised state (store-IsSynchronised id d v e known v_typed sync),
      (
        d,
        b,
        rw (known, recorded, boolean),
        subst (λ x. get_field id x ≡ ok (d, some (bool (not b)))) state
            (rw (← flipped) (get_field-store id d v e known)),
      ),
    )
