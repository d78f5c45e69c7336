-- ===== src/ConfigEditor/FieldEdits.antt =====
-- The table of editable fields, the constructor of `DevnetConfigEditor`, and the operations on
-- fields: `getField`, `setFieldValue` and `toggleBooleanField`.
pub mod Table
pub mod Stores
pub mod Laws
pub mod Opening
pub mod Sessions
use offckb.Base.{
  ◌≡◌, Bool, true, false, not, ◌&&◌, Option, none, some, List, [], ◌∷◌, map, eqb, if◌then◌else◌,
  ◌==◌, text_eq, Result, ok, err, ◌>>=◌, ◌>>◌, guard,
}
use offckb.Base.Text.{Text, text, trim, is_empty}
use offckb.Value.{
  pos, nan, integer, Value, null, bool, num, str, arr, obj, Fields, end, lookup, insert,
}
use offckb.Value.Paths.{get_by_path, set_by_path}
use offckb.ConfigEditor.{
  Platform, DocumentId, ckb, miner, FieldType, string_type, number_type, boolean_type,
  FieldDefinition, EditError, missing_field, unexpected_type, unknown_field, not_boolean,
  empty_value, bad_host_port, bad_url, not_positive_integer, bad_boolean, Editor, document,
  with_document,
}
use offckb.ConfigEditor.Inputs.{
  is_positive_integer, normalize_boolean_input, validate_host_port, validate_http_url,
}

abbrev define : Text → DocumentId → FieldType → List Text → FieldDefinition
define id file type path = record { id = id; file = file; type = type; path = path }

unfoldable pub listen_address_id : Text
unfolding text
listen_address_id = text "ckb.rpc.listen_address"

unfoldable pub rpc_url_id : Text
unfolding text
rpc_url_id = text "miner.client.rpc_url"

unfoldable pub editable_field_definitions : List FieldDefinition
unfolding text listen_address_id rpc_url_id
editable_field_definitions =
    define (text "ckb.logger.filter") ckb string_type (text "logger" ∷ text "filter" ∷ [])
    ∷ define (text "ckb.logger.color") ckb boolean_type (text "logger" ∷ text "color" ∷ [])
    ∷ define (text "ckb.logger.log_to_file") ckb boolean_type
        (text "logger" ∷ text "log_to_file" ∷ [])
    ∷ define (text "ckb.logger.log_to_stdout") ckb boolean_type
        (text "logger" ∷ text "log_to_stdout" ∷ [])
    ∷ define listen_address_id ckb string_type (text "rpc" ∷ text "listen_address" ∷ [])
    ∷ define (text "ckb.rpc.max_request_body_size") ckb number_type
        (text "rpc" ∷ text "max_request_body_size" ∷ [])
    ∷ define (text "ckb.rpc.enable_deprecated_rpc") ckb boolean_type
        (text "rpc" ∷ text "enable_deprecated_rpc" ∷ [])
    ∷ define rpc_url_id miner string_type (text "miner" ∷ text "client" ∷ text "rpc_url" ∷ [])
    ∷ define (text "miner.client.block_on_submit") miner boolean_type
        (text "miner" ∷ text "client" ∷ text "block_on_submit" ∷ [])
    ∷ define (text "miner.client.poll_interval") miner number_type
        (text "miner" ∷ text "client" ∷ text "poll_interval" ∷ [])
    ∷ []

-- `editableFieldDefinitions.find((item) => item.id === fieldId)`
unfoldable pub find_definition : Text → List FieldDefinition → Option FieldDefinition
find_definition id [] = none
find_definition id (d ∷ ds) = if d.id == id then some d else find_definition id ds

-- The member has the type that the definition names.
abbrev pub has_type : FieldType → Value → Bool
has_type string_type (str _) = true
has_type number_type (num _) = true
has_type boolean_type (bool _) = true
has_type _ _ = false

-- One round of the constructor's loop.
unfoldable pub read_field : Editor → FieldDefinition → Fields → Result EditError Fields
read_field e d values = elim (get_by_path (document d.file e) d.path) [
  | none ↦ err (missing_field d.id)
  | some null ↦ err (missing_field d.id)
  | some v ↦ if has_type d.type v then ok (insert d.id v values) else err (unexpected_type d.id)
]

unfoldable pub read_fields : Editor → List FieldDefinition → Fields → Result EditError Fields
unfolding read_field
read_fields e [] values = ok values
read_fields e (d ∷ ds) values = read_field e d values >>= λ more. read_fields e ds more

-- `new DevnetConfigEditor(configPath, ckbConfig, minerConfig)`
unfoldable pub new_editor : Platform → Text → Value → Value → Result EditError Editor
unfolding read_fields
new_editor p config_path ckb_config miner_config =
    let e : Editor = record {
      ckb_toml_path = p.join_path config_path (text "ckb.toml");
      miner_toml_path = p.join_path config_path (text "ckb-miner.toml");
      ckb_config = ckb_config;
      miner_config = miner_config;
      values = end;
    } in
    read_fields e editable_field_definitions end >>= λ values. ok (record e { values = values })

abbrev pub field_definition : Text → Result EditError FieldDefinition
field_definition id = elim (find_definition id editable_field_definitions) [
  | none ↦ err (unknown_field id)
  | some d ↦ ok d
]

-- `getField(fieldId)`: the definition and the value recorded for it.
unfoldable pub get_field : Text → Editor → Result EditError (FieldDefinition × Option Value)
get_field id e = field_definition id >>= λ d. ok (d, lookup d.id e.values)

-- The two writes that end every branch of `setFieldValue`.
unfoldable pub store : FieldDefinition → Value → Editor → Editor
store d v e = record (with_document d.file (set_by_path (document d.file e) d.path v) e) {
  values = insert d.id v e.values;
}

-- What `setFieldValue` stores, or the error. Every throw comes before the first write.
unfoldable pub read_input : Platform → FieldDefinition → Text → Result EditError Value
read_input p d raw =
    let trimmed = trim raw in
    elim d.type [
      | string_type ↦
          if is_empty trimmed
          then err empty_value
          else if d.id == listen_address_id && not (validate_host_port p trimmed)
          then err bad_host_port
          else if d.id == rpc_url_id && not (validate_http_url p trimmed)
          then err bad_url
          else ok (str trimmed)
      | number_type ↦
          let parsed = p.to_number trimmed in
          if is_positive_integer parsed then ok (num parsed) else err not_positive_integer
      | boolean_type ↦ elim (normalize_boolean_input trimmed) [
        | none ↦ err bad_boolean
        | some b ↦ ok (bool b)
      ]
    ]

unfoldable pub set_field_value : Platform → Text → Text → Editor → Result EditError (Value × Editor)
unfolding read_input store
set_field_value p id raw e = do d ← field_definition id; v ← read_input p d raw; ok (v, store d v e)

-- `!field.value`, on any value of the language.
abbrev pub negate : Option Value → Bool
negate (some (num nan)) = true
negate (some (num (integer (pos n)))) = eqb n 0
negate (some (num _)) = false
negate (some (bool b)) = not b
negate (some (str s)) = is_empty s
negate (some (arr _)) = false
negate (some (obj _)) = false
negate _ = true

unfoldable pub toggle_boolean_field : Text → Editor → Result EditError (Value × Editor)
unfolding get_field store
toggle_boolean_field id e = do
  (d, value) ← get_field id e
  elim d.type [
    | boolean_type ↦ ok (bool (negate value), store d (bool (negate value)) e)
    | _ ↦ err (not_boolean id)
  ]
