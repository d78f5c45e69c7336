-- ===== src/ConfigEditor/DocumentEdits.antt =====
-- The operations of `DevnetConfigEditor` on a whole document. The array and object that a path
-- names are changed in place; every throw comes before the first write.
pub mod Laws
pub mod Moves
pub mod Containers
use offckb.Base.{
  ℕ, zero, suc, ◌+◌, ◌≡◌, Bool, true, false, not, ◌&&◌, ◌||◌, Option, none, some, List, [], ◌∷◌,
  ◌++◌, map, ltb, leb, eqb, if◌then◌else◌, ◌==◌, text_eq, length, take, drop, get_elem?, Result, ok,
  err, ◌>>=◌, ◌>>◌, guard,
}
use offckb.Base.Text.{Text, text, trim, is_empty, join, contains}
use offckb.Value.{
  pos, Number, integer, Value, null, str, arr, obj, Fields, end, items, of_list, lookup, insert,
  remove,
}
use offckb.Value.Paths.{get_by_path, set_by_path}
use offckb.ConfigEditor.{
  Platform, DocumentId, ckb, miner, FieldDefinition, EditError, edit_root, not_primitive,
  not_object, empty_key, key_exists, key_missing, not_array, bad_insert_index, bad_source_index,
  bad_target_index, delete_root, bad_delete_index, not_deletable, Editor, document, with_document,
}
use offckb.ConfigEditor.Inputs.{
  is_primitive, parse_value_by_existing_type, parse_input_as_toml_primitive,
}
use offckb.ConfigEditor.FieldEdits.{editable_field_definitions, set_field_value}

-- `getEntryValue(documentId, pathParts)`
unfoldable pub get_entry_value : DocumentId → List Text → Editor → Option Value
get_entry_value id path e = get_by_path (document id e) path

-- The object or array that stands at the path is replaced by its changed state.
unfoldable pub replace_at : DocumentId → List Text → Value → Editor → Editor
replace_at id [] v e = with_document id v e
replace_at id (k ∷ ks) v e = with_document id (set_by_path (document id e) (k ∷ ks) v) e

abbrev pub document_name : DocumentId → Text
document_name ckb = text "ckb"
document_name miner = text "miner"

-- `${file}:${path.join('.')}`
unfoldable pub file_key : DocumentId → List Text → Text
file_key id path = document_name id ++ text ":" ++ join (text ".") path

-- `safeFieldDefinitionMap.get(key)`: the keys of the table differ from each other.
unfoldable pub safe_definition : Text → List FieldDefinition → Option FieldDefinition
unfolding file_key
safe_definition key [] = none
safe_definition key (d ∷ ds) =
    if file_key d.file d.path == key then some d else safe_definition key ds

unfoldable pub set_document_value :
    Platform → DocumentId → List Text → Text → Editor → Result EditError (Value × Editor)
set_document_value p id [] raw e = err edit_root
set_document_value p id (k ∷ ks) raw e =
    elim (safe_definition (file_key id (k ∷ ks)) editable_field_definitions) [
      | some d ↦ set_field_value p d.id raw e
      | none ↦ elim (get_entry_value id (k ∷ ks) e) [
        | none ↦ err not_primitive
        | some current ↦
            if is_primitive current
            then (parse_value_by_existing_type p raw current
                >>= (λ v. ok (v, with_document id (set_by_path (document id e) (k ∷ ks) v) e)))
            else err not_primitive
      ]
    ]

-- The names that every object inherits, for the test `key in target`.
unfoldable pub inherited_names : List Text
inherited_names = map text (
    "constructor" ∷ "__defineGetter__" ∷ "__defineSetter__" ∷ "hasOwnProperty" ∷ "__lookupGetter__"
    ∷ "__lookupSetter__" ∷ "isPrototypeOf" ∷ "propertyIsEnumerable" ∷ "toString" ∷ "valueOf"
    ∷ "__proto__" ∷ "toLocaleString" ∷ [])

-- `key in target`
unfoldable pub has_key : Text → Fields → Bool
has_key k fs = elim (lookup k fs) [ some _ ↦ true | none ↦ contains inherited_names k ]

abbrev pub object_at : Option Value → Result EditError Fields
object_at (some (obj fs)) = ok fs
object_at _ = err not_object

abbrev pub array_at : Option Value → Result EditError (List Value)
array_at (some (arr vs)) = ok (items vs)
array_at _ = err not_array

unfoldable pub add_object_entry :
    Platform → DocumentId → List Text → Text → Text → Editor → Result EditError (Value × Editor)
add_object_entry p id path key raw e = do
  fs ← object_at (get_entry_value id path e)
  let normalized_key = trim key
  guard (not (is_empty normalized_key)) empty_key
  guard (not (has_key normalized_key fs)) (key_exists normalized_key)
  v ← parse_input_as_toml_primitive p raw
  ok (v, replace_at id path (obj (insert normalized_key v fs)) e)

unfoldable pub append_array_entry :
    Platform → DocumentId → List Text → Text → Editor → Result EditError (Value × Editor)
append_array_entry p id path raw e = do
  vs ← array_at (get_entry_value id path e)
  v ← parse_input_as_toml_primitive p raw
  ok (v, replace_at id path (arr (of_list (vs ++ v ∷ []))) e)

-- `Number.isInteger(index) && index >= 0`
abbrev pub natural : Number → Option ℕ
natural (integer (pos n)) = some n
natural _ = none

-- `target.splice(i, 0, v)`, for `i <= target.length`, and `target.splice(i, 1)`
unfoldable pub insert_at {ℓ} : {A : Type ℓ} → ℕ → A → List A → List A
insert_at i v vs = take i vs ++ v ∷ drop i vs

unfoldable pub remove_at {ℓ} : {A : Type ℓ} → ℕ → List A → List A
remove_at i vs = take i vs ++ drop (suc i) vs

unfoldable pub insert_array_entry :
    Platform → DocumentId → List Text → Number → Text → Editor → Result EditError (Value × Editor)
insert_array_entry p id path index raw e = do
  vs ← array_at (get_entry_value id path e)
  elim (natural index) [
    | none ↦ err bad_insert_index
    | some i ↦ do
      guard (leb i (length vs)) bad_insert_index
      v ← parse_input_as_toml_primitive p raw
      ok (v, replace_at id path (arr (of_list (insert_at i v vs))) e)
  ]

-- `const [item] = target.splice(from, 1); target.splice(to, 0, item)`, which does nothing where
-- `from === to`.
unfoldable pub move {ℓ} : {A : Type ℓ} → ℕ → ℕ → List A → List A
unfolding insert_at remove_at
move from to vs =
    if eqb from to
    then vs
    else elim (get_elem? vs from) [ none ↦ vs | some v ↦ insert_at to v (remove_at from vs) ]

-- An index of an item that is there, or the error.
abbrev pub item_index : Number → ℕ → EditError → Result EditError ℕ
item_index index size error = elim (natural index) [
  | none ↦ err error
  | some i ↦ if ltb i size then ok i else err error
]

unfoldable pub move_array_entry :
    DocumentId → List Text → Number → Number → Editor → Result EditError Editor
move_array_entry id path from_index to_index e = do
  vs ← array_at (get_entry_value id path e)
  from ← item_index from_index (length vs) bad_source_index
  to ← item_index to_index (length vs) bad_target_index
  ok (if eqb from to then e else replace_at id path (arr (of_list (move from to vs))) e)

unfoldable pub set_array_values :
    DocumentId → List Text → List Text → Editor → Result EditError Editor
set_array_values id path values e = do
  _ ← array_at (get_entry_value id path e)
  ok (replace_at id path (arr (of_list (map str values))) e)

-- `pathParts.slice(0, -1)` and the last key.
unfoldable pub split_last : Text → List Text → List Text × Text
split_last k [] = ([], k)
split_last k (j ∷ ks) = let (parent, key) = split_last j ks in (k ∷ parent, key)

-- The entry of the parent object or array that was read.
unfoldable pub delete_in :
    Platform → DocumentId → List Text → Text → Option Value → Editor → Result EditError Editor
delete_in p id parent key (some (arr vs)) e = do
  i ← item_index (p.to_number key) (length (items vs)) bad_delete_index
  ok (replace_at id parent (arr (of_list (remove_at i (items vs)))) e)
delete_in p id parent key (some (obj fs)) e = do
  guard (has_key key fs) (key_missing key)
  ok (replace_at id parent (obj (remove key fs)) e)
delete_in p id parent key _ e = err not_deletable

unfoldable pub delete_document_path :
    Platform → DocumentId → List Text → Editor → Result EditError Editor
unfolding split_last delete_in
delete_document_path p id [] e = err delete_root
delete_document_path p id (k ∷ ks) e =
    let (parent, key) = split_last k ks in delete_in p id parent key (get_entry_value id parent e) e
