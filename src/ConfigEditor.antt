-- ===== src/ConfigEditor.antt =====
-- src/devnet/config-editor.ts: the checks of typed input, and the data of the editor.
-- `Platform` is what the editor calls outside the repository: the number and URL parsers of the
-- runtime, `path.join`, and the TOML library.
pub mod Inputs
pub mod FieldEdits
pub mod DocumentEdits
pub mod Entries
pub mod Save
pub mod Tests
use offckb.Base.{
  ℕ, zero, suc, ◌+◌, ◌≤◌, ◌≡◌, Bool, true, false, ◌&&◌, ◌||◌, not, Option, none, some, List, [],
  ◌∷◌, ◌++◌, map, leb, ltb, eqb, if◌then◌else◌, ◌==◌, text_eq, length, drop, every, any,
}
use offckb.Base.Text.{Text, text, trim, lower, contains, is_empty}
use offckb.Value.{
  ℤ, pos, negsuc, Number, nan, infinity, integer, fraction, Value, null, bool, num, str, arr, obj,
  Fields,
}

pub record Platform : Type 0 where
  -- `Number(text)` and `String(number)`
  pub to_number : Text → Number
  pub number_text : Number → Text
  -- `new URL(text).protocol`, or the exception
  pub url_protocol : Text → Option Text
  pub join_path : Text → Text → Text
  -- `toml.parse` and `toml.stringify`, or the exceptions
  pub parse_toml : Text → Option Value
  pub stringify_toml : Value → Option Text

pub data DocumentId : Type 0 where
  ckb miner : DocumentId

pub data FieldType : Type 0 where
  string_type number_type boolean_type : FieldType

pub data EntryType : Type 0 where
  object_entry array_entry string_entry number_entry boolean_entry : EntryType

-- `getTypeOfTomlValue`
abbrev pub type_of_toml_value : Value → EntryType
type_of_toml_value (arr _) = array_entry
type_of_toml_value (obj _) = object_entry
type_of_toml_value (str _) = string_entry
type_of_toml_value (num _) = number_entry
type_of_toml_value _ = boolean_entry

-- `EditableFieldDefinition`, less its label and description.
pub record FieldDefinition : Type 0 where
  pub id : Text
  pub file : DocumentId
  pub type : FieldType
  pub path : List Text

-- The errors that the editor throws, by their messages.
pub data EditError : Type 0 where
  missing_field unexpected_type unknown_field not_boolean : Text → EditError
  empty_value bad_host_port bad_url not_positive_integer bad_boolean not_finite : EditError
  edit_root not_primitive not_object empty_key : EditError
  key_exists key_missing : Text → EditError
  not_array bad_insert_index bad_source_index bad_target_index : EditError
  delete_root bad_delete_index not_deletable : EditError
  invalid_config : Text → EditError
  initialization : Text → EditError
  unreadable unprintable : Text → EditError

-- `DevnetConfigEditor`. The documents hold the two configurations themselves, not copies.
pub record Editor : Type 0 where
  pub ckb_toml_path : Text
  pub miner_toml_path : Text
  pub ckb_config : Value
  pub miner_config : Value
  pub values : Fields

-- `getDocument(documentId).data`
abbrev pub document : DocumentId → Editor → Value
document ckb e = e.ckb_config
document miner e = e.miner_config

-- The state after the document's data is changed in place.
abbrev pub with_document : DocumentId → Value → Editor → Editor
with_document ckb v e = record e { ckb_config = v }
with_document miner v e = record e { miner_config = v }
