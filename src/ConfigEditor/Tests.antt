-- ===== src/ConfigEditor/Tests.antt =====
-- Runs of the configuration editor on small documents.
mod Documents
mod Saving
use offckb.Base.{
  ℕ, zero, suc, ◌+◌, ◌*◌, ◌-◌, ◌≡◌, ◌≢◌, ◌↔◌, ◌⊎◌, inl, inr, refl, Bool, true, false, Option, none,
  some, List, [], ◌∷◌, ◌++◌, All, list_eqb, if◌then◌else◌, Result, ok, err,
}
use offckb.Base.Text.{
  Text, text, is_digit, join, starts_with, trim, lower, decimal, print_digits, lower_unit,
}
use offckb.Value.{
  pos, Number, nan, integer, Value, bool, num, str, arr, obj, Items, nil, cons, Fields, end, field,
  lookup, insert, remove, items,
}
use offckb.Value.Paths.{get_key, get_by_path, set_key, set_by_path, container}
use mathlib.Core.List.{Perm}
use offckb.Base.{not, length, get_elem?, take, drop}
use offckb.Value.{of_list, get_item}
use offckb.Value.Paths.Laws.{Diverges}
use offckb.ConfigEditor.{
  Platform, DocumentId, ckb, miner, Editor, FieldDefinition, document, with_document, string_type,
  boolean_type, type_of_toml_value,
}
use offckb.ConfigEditor.Inputs.{
  validate_host_port, normalize_boolean_input, parse_value_by_existing_type,
  parse_input_as_toml_primitive, last_index_of, valid_separator,
}
use offckb.ConfigEditor.Inputs.Laws.{IsHostPort, validate_host_port_iff}
use offckb.ConfigEditor.DocumentEdits.{
  get_entry_value, replace_at, file_key, safe_definition, set_document_value, has_key,
  inherited_names, add_object_entry, move, remove_at, move_array_entry, split_last, delete_in,
  delete_document_path,
}
use offckb.ConfigEditor.DocumentEdits.Laws.{set_document_value_lem, add_object_entry_lem}
use offckb.ConfigEditor.DocumentEdits.Containers.{
  move_array_entry_lem, IsDeleted, delete_document_path_lem,
}
use offckb.ConfigEditor.Entries.{get_entries_for_document}
use offckb.ConfigEditor.Entries.Laws.{IsToml, IsEntry, get_entries_for_document-IsEntry}
use offckb.ConfigEditor.Save.{validate_before_save}
use offckb.ConfigEditor.Save.Checks.{IsSavable}
use offckb.ConfigEditor.Save.Accepted.{validate_before_save_iff}
use offckb.ConfigEditor.FieldEdits.{
  editable_field_definitions, find_definition, listen_address_id, rpc_url_id, read_field,
  read_fields, new_editor, get_field, store, read_input, set_field_value, toggle_boolean_field,
}
use offckb.ConfigEditor.FieldEdits.Stores.{IsSynchronised}
use offckb.ConfigEditor.FieldEdits.Sessions.{opens, sets, Reached-IsSynchronised}
use offckb.ConfigEditor.FieldEdits.Opening.{new_editor-IsSynchronised}
use offckb.ConfigEditor.FieldEdits.Laws.{
  set_field_value-IsSynchronised, toggle_boolean_field-IsSynchronised,
}

-- Decimal digits, and not a number for another text.
abbrev number_from : ℕ → Text → Number
number_from acc [] = integer (pos acc)
number_from acc (c ∷ s) =
    let rest = number_from (acc * 10 + (c - b'0')) s in if is_digit c then rest else nan

abbrev pub small_platform : Platform
small_platform = record {
  to_number = number_from 0;
  number_text = λ _. text "number";
  url_protocol = λ s. if starts_with s (text "http:") then some (text "http:") else none;
  join_path = λ a b. a ++ text "/" ++ b;
  parse_toml = λ _. none;
  stringify_toml = λ _. some (text "document");
}

abbrev texts : List Text → Items
texts [] = nil
texts (t ∷ ts) = cons (str t) (texts ts)

abbrev pub fields_of : Value → Fields
fields_of (obj fs) = fs
fields_of _ = end

abbrev pub small_ckb : Value
small_ckb = obj (
    field (text "logger")
      (obj (
        field (text "filter") (str (text "info")) (
          field (text "color") (bool true) (
            field (text "log_to_file") (bool true)
              (field (text "log_to_stdout") (bool true) end)))))
      (field (text "rpc")
        (obj (
          field (text "listen_address") (str (text "127.0.0.1:8114")) (
            field (text "max_request_body_size") (num (integer (pos 10))) (
              field (text "enable_deprecated_rpc") (bool false)
                (field (text "modules") (arr (texts (text "Net" ∷ text "Pool" ∷ []))) end)))))
        (field (text "network")
          (obj (
            field (text "support_protocols") (arr (texts (text "Sync" ∷ text "Identify" ∷ [])))
              end))
          end)))

abbrev pub small_miner : Value
small_miner = obj (
    field (text "miner")
      (obj (
        field (text "client")
          (obj (
            field (text "rpc_url") (str (text "http://a")) (
              field (text "block_on_submit") (bool true)
                (field (text "poll_interval") (num (integer (pos 1000))) end))))
          end))
      end)

abbrev pub small_values : Fields
small_values = field (text "ckb.logger.filter") (str (text "info")) (
    field (text "ckb.logger.color") (bool true) (
      field (text "ckb.logger.log_to_file") (bool true) (
        field (text "ckb.logger.log_to_stdout") (bool true) (
          field (text "ckb.rpc.listen_address") (str (text "127.0.0.1:8114")) (
            field (text "ckb.rpc.max_request_body_size") (num (integer (pos 10))) (
              field (text "ckb.rpc.enable_deprecated_rpc") (bool false) (
                field (text "miner.client.rpc_url") (str (text "http://a")) (
                  field (text "miner.client.block_on_submit") (bool true) (
                    field (text "miner.client.poll_interval") (num (integer (pos 1000)))
                      end)))))))))

abbrev pub small_editor : Editor
small_editor = record {
  ckb_toml_path = text "d/ckb.toml";
  miner_toml_path = text "d/ckb-miner.toml";
  ckb_config = small_ckb;
  miner_config = small_miner;
  values = small_values;
}

small_editor_opens : new_editor small_platform (text "d") small_ckb small_miner ≡ ok small_editor
unfolding new_editor read_fields read_field editable_field_definitions get_by_path get_key insert
    lookup text list_eqb listen_address_id rpc_url_id
small_editor_opens = refl

abbrev listen_field : FieldDefinition
listen_field = record {
  id = text "ckb.rpc.listen_address";
  file = ckb;
  type = string_type;
  path = text "rpc" ∷ text "listen_address" ∷ [];
}

set_field_value_small :
    set_field_value small_platform (text "ckb.rpc.listen_address") (text " 0.0.0.0:9 ") small_editor
    ≡ ok (str (text "0.0.0.0:9"), store listen_field (str (text "0.0.0.0:9")) small_editor)
unfolding set_field_value find_definition editable_field_definitions read_input text list_eqb
    listen_address_id rpc_url_id trim validate_host_port is_digit
set_field_value_small = refl

Reached-IsSynchronised_example :
    IsSynchronised (store listen_field (str (text "0.0.0.0:9")) small_editor)
Reached-IsSynchronised_example =
    Reached-IsSynchronised small_platform (store listen_field (str (text "0.0.0.0:9")) small_editor)
      (sets small_editor (text "ckb.rpc.listen_address") (text " 0.0.0.0:9 ")
        (str (text "0.0.0.0:9")) (store listen_field (str (text "0.0.0.0:9")) small_editor)
        (opens (text "d") small_ckb small_miner small_editor small_editor_opens)
        set_field_value_small)
