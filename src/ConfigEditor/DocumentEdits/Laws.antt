-- ===== src/ConfigEditor/DocumentEdits/Laws.antt =====
-- What an edit of a document leaves to be read.
use mathlib.Core.Path.{subst}
use mathlib.Core.Bool.{false≢true}
use offckb.Base.{
  ◌≡◌, refl, ◌≢◌, inl, inr, ◌∙◌, sym, ap, true, false, not, Option, none, some, List, [], ◌∷◌, ◌++◌,
  if◌then◌else◌, ◌==◌, text_eq, list_eqb, list_eqb_iff, list_eqb_refl, Option-cases, ok, ◌>>=◌,
  guard, >>=-eq-ok, guard-eq-ok, >>=-state-eq-ok, arith,
}
use offckb.Base.Text.{Text, trim, is_empty}
use offckb.Value.{Value, null, bool, num, str, arr, obj, Fields, Items, items, lookup, insert}
use offckb.Value.Paths.{get_by_path, set_by_path}
use offckb.Value.Paths.Laws.{
  lookup-insert, Diverges, get_by_path-set_by_path_self, get_by_path-append,
}
use offckb.ConfigEditor.{
  Platform, DocumentId, ckb, miner, type_of_toml_value, Editor, document, with_document,
}
use offckb.ConfigEditor.Inputs.{
  is_primitive, parse_value_by_existing_type, parse_input_as_toml_primitive,
}
use offckb.ConfigEditor.FieldEdits.{editable_field_definitions}
use offckb.ConfigEditor.FieldEdits.Stores.{document-with_document, write-get-Diverges}
use offckb.ConfigEditor.DocumentEdits.{
  get_entry_value, replace_at, file_key, safe_definition, set_document_value, has_key, object_at,
  array_at, add_object_entry,
}

values-with_document :
    (id : DocumentId) (v : Value) (e : Editor) → (with_document id v e).values ≡ e.values
values-with_document ckb v e = refl
values-with_document miner v e = refl

-- A container that is replaced is read back.
pub get_entry_value-replace_at :
    (id : DocumentId) (path : List Text) (old v : Value) (e : Editor)
    → get_entry_value id path e ≡ some old
    → get_entry_value id path (replace_at id path v e) ≡ some v
unfolding get_entry_value replace_at get_by_path
get_entry_value-replace_at id [] old v e h = ap some (document-with_document id v e)
get_entry_value-replace_at id (k ∷ ks) old v e h =
    ap (λ t. get_by_path t (k ∷ ks)) (document-with_document id _ e)
    ∙ get_by_path-set_by_path_self (document id e) (k ∷ ks) old v tt h

parse_value_by_existing_type-keeps_type :
    (p : Platform) (raw : Text) (old v : Value)
    → is_primitive old ≡ true
    → parse_value_by_existing_type p raw old ≡ ok v
    → type_of_toml_value v ≡ type_of_toml_value old
unfolding parse_value_by_existing_type
parse_value_by_existing_type-keeps_type p raw old v h k = ground arith

-- The steps of a `setDocumentValue` that succeeds outside the table of fields.
set_document_value-eq-ok :
    (p : Platform) (id : DocumentId) (k : Text) (ks : List Text) (raw : Text) (e e' : Editor)
    (v : Value)
    → safe_definition (file_key id (k ∷ ks)) editable_field_definitions ≡ none
    → set_document_value p id (k ∷ ks) raw e ≡ ok (v, e')
    → (old : Value) × (get_entry_value id (k ∷ ks) e ≡ some old)
      × (type_of_toml_value v ≡ type_of_toml_value old)
      × (with_document id (set_by_path (document id e) (k ∷ ks) v) e ≡ e')
unfolding set_document_value
set_document_value-eq-ok p id k ks raw e e' v unsafe h =
    elim (Option-cases (get_entry_value id (k ∷ ks) e)) [
      | inl missing ↦ absurd (ground arith)
      | inr (old, found) ↦
          let primitive : is_primitive old ≡ true = ground arith in
          let h' : (parse_value_by_existing_type p raw old
                >>= (λ w. ok (w, with_document id (set_by_path (document id e) (k ∷ ks) w) e)))
              ≡ ok (v, e') =
            ground arith in
          let (read, state) =
            >>=-state-eq-ok (parse_value_by_existing_type p raw old)
              (λ w. with_document id (set_by_path (document id e) (k ∷ ks) w) e) v e' h' in
          (old, found, parse_value_by_existing_type-keeps_type p raw old v primitive read, state)
    ]

-- When an entry that no field of the table covers is set, it has the value that is returned, which has
-- the type of the old one, what no diverging path reaches stays in both documents, and the recorded
-- values stay.
pub set_document_value_lem :
    (p : Platform) (id : DocumentId) (k : Text) (ks : List Text) (raw : Text) (e e' : Editor)
    (v : Value)
    → safe_definition (file_key id (k ∷ ks)) editable_field_definitions ≡ none
    → set_document_value p id (k ∷ ks) raw e ≡ ok (v, e')
    → (get_entry_value id (k ∷ ks) e' ≡ some v)
      × ((old : Value) × (get_entry_value id (k ∷ ks) e ≡ some old)
          × (type_of_toml_value v ≡ type_of_toml_value old))
      × ((other : DocumentId) (js : List Text)
          → Diverges (k ∷ ks) js
          → get_entry_value other js e' ≡ get_entry_value other js e)
      × (e'.values ≡ e.values)
unfolding get_entry_value
set_document_value_lem p id k ks raw e e' v unsafe h =
    let (old, found, typed, state) = set_document_value-eq-ok p id k ks raw e e' v unsafe h in
    (
      subst (λ x. get_by_path (document id x) (k ∷ ks) ≡ some v) state
          (ap (λ t. get_by_path t (k ∷ ks)) (document-with_document id _ e)
            ∙ get_by_path-set_by_path_self (document id e) (k ∷ ks) old v tt found),
      (old, found, typed),
      λ other js d.
          subst (λ x. get_by_path (document other x) js ≡ get_by_path (document other e) js) state
            (write-get-Diverges id other e (k ∷ ks) js old v d found),
      subst (λ x. x.values ≡ e.values) state (values-with_document id _ e),
    )

-- The object at a path, where one is required.
object_at-eq-ok : (o : Option Value) (fs : Fields) → object_at o ≡ ok fs → o ≡ some (obj fs)
object_at-eq-ok (some (obj gs)) fs h = cc
object_at-eq-ok (some null) fs h = cc
object_at-eq-ok (some (bool b)) fs h = cc
object_at-eq-ok (some (num n)) fs h = cc
object_at-eq-ok (some (str s)) fs h = cc
object_at-eq-ok (some (arr vs)) fs h = cc
object_at-eq-ok none fs h = cc

pub array_at-eq-ok :
    (o : Option Value) (vs : List Value)
    → array_at o ≡ ok vs
    → (xs : Items) × (o ≡ some (arr xs)) × (items xs ≡ vs)
array_at-eq-ok (some (arr xs)) vs h = (xs, refl, cc)
array_at-eq-ok (some null) vs h = cc
array_at-eq-ok (some (bool b)) vs h = cc
array_at-eq-ok (some (num n)) vs h = cc
array_at-eq-ok (some (str s)) vs h = cc
array_at-eq-ok (some (obj fs)) vs h = cc
array_at-eq-ok none vs h = cc

not_empty-ne-nil : (s : Text) → not (is_empty s) ≡ true → s ≢ []
not_empty-ne-nil [] h = absurd (false≢true h)
not_empty-ne-nil (c ∷ s) h = cc

lookup_of_not-has_key : (k : Text) (fs : Fields) → not (has_key k fs) ≡ true → lookup k fs ≡ none
unfolding has_key
lookup_of_not-has_key k fs h = ground arith

not_eqb : (k j : Text) → j ≢ k → list_eqb k j ≡ false
not_eqb k j d = ground (arith, list_eqb_iff k j)

-- The member of an object at a path.
pub member_of_object :
    (id : DocumentId) (path : List Text) (j : Text) (fs : Fields) (e : Editor)
    → get_entry_value id path e ≡ some (obj fs)
    → get_entry_value id (path ++ j ∷ []) e ≡ lookup j fs
unfolding get_entry_value get_by_path
member_of_object id path j fs e h =
    get_by_path-append (document id e) (obj fs) path (j ∷ []) h ∙ last (lookup j fs)
  where
    last : (o : Option Value) → (elim o [ none ↦ none | some w ↦ some w ]) ≡ o
    last none = refl
    last (some w) = refl

added_entry :
    (id : DocumentId) (path : List Text) (k j : Text) (v : Value) (fs : Fields) (e : Editor)
    → get_entry_value id path e ≡ some (obj fs)
    → get_entry_value id (path ++ j ∷ []) (replace_at id path (obj (insert k v fs)) e)
      ≡ (if k == j then some v else lookup j fs)
added_entry id path k j v fs e h =
    member_of_object id path j (insert k v fs) (replace_at id path (obj (insert k v fs)) e)
      (get_entry_value-replace_at id path (obj fs) (obj (insert k v fs)) e h)
    ∙ lookup-insert j k v fs

-- When an entry is added to an object, its trimmed key is not empty and was not a key of the object,
-- the entry has the value that is returned, and the other entries of the object stay.
pub add_object_entry_lem :
    (p : Platform) (id : DocumentId) (path : List Text) (key raw : Text) (e e' : Editor) (v : Value)
    → add_object_entry p id path key raw e ≡ ok (v, e')
    → (fs : Fields) × (get_entry_value id path e ≡ some (obj fs))
      × (trim key ≢ [])
      × (lookup (trim key) fs ≡ none)
      × (get_entry_value id (path ++ trim key ∷ []) e' ≡ some v)
      × ((j : Text)
          → j ≢ trim key
          → get_entry_value id (path ++ j ∷ []) e' ≡ get_entry_value id (path ++ j ∷ []) e)
unfolding add_object_entry
add_object_entry_lem p id path key raw e e' v h =
    let (fs, found, h₁) = >>=-eq-ok (object_at (get_entry_value id path e)) _ h in
    let (_, filled, h₂) = >>=-eq-ok (guard (not (is_empty (trim key))) _) _ h₁ in
    let (_, fresh, h₃) = >>=-eq-ok (guard (not (has_key (trim key) fs)) _) _ h₂ in
    let (read, state) =
      >>=-state-eq-ok (parse_input_as_toml_primitive p raw)
        (λ w. replace_at id path (obj (insert (trim key) w fs)) e) v e' h₃ in
    let there = object_at-eq-ok (get_entry_value id path e) fs found in
    (
      fs,
      there,
      not_empty-ne-nil (trim key) (guard-eq-ok _ _ filled),
      lookup_of_not-has_key (trim key) fs (guard-eq-ok _ _ fresh),
      subst (λ x. get_entry_value id (path ++ trim key ∷ []) x ≡ some v) state
          (added_entry id path (trim key) (trim key) v fs e there ∙ rw (list_eqb_refl (trim key))),
      λ j d.
          subst (λ x. get_entry_value id (path ++ j ∷ []) x ≡ get_entry_value id (path ++ j ∷ []) e)
            state
            (added_entry id path (trim key) j v fs e there
              ∙ rw (not_eqb (trim key) j d) (sym (member_of_object id path j fs e there))),
    )
