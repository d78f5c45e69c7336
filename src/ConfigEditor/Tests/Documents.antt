-- ===== src/ConfigEditor/Tests/Documents.antt =====
-- Runs of the edits of documents.
use offckb.Base.{◌≡◌, refl, some, List, [], ◌∷◌, list_eqb, ok}
use offckb.Base.Text.{Text, text, join, trim, decimal, print_digits}
use offckb.Value.{Value, str, lookup}
use offckb.Value.Paths.{get_key, get_by_path, set_by_path}
use offckb.Value.{get_item}
use offckb.Value.Paths.Laws.{Diverges}
use offckb.ConfigEditor.{DocumentId, ckb, Editor, with_document, type_of_toml_value}
use offckb.ConfigEditor.Inputs.{parse_value_by_existing_type}
use offckb.ConfigEditor.DocumentEdits.{
  get_entry_value, file_key, safe_definition, set_document_value,
}
use offckb.ConfigEditor.DocumentEdits.Laws.{set_document_value_lem}
use offckb.ConfigEditor.FieldEdits.{editable_field_definitions, listen_address_id, rpc_url_id}
use offckb.ConfigEditor.Tests.{small_platform, small_ckb, small_values, small_editor}

abbrev first_module : List Text
first_module = text "rpc" ∷ text "modules" ∷ text "0" ∷ []

abbrev renamed_editor : Editor
renamed_editor =
    with_document ckb (set_by_path small_ckb first_module (str (text "Miner"))) small_editor

renamed_small :
    set_document_value small_platform ckb first_module (text " Miner ") small_editor
    ≡ ok (str (text "Miner"), renamed_editor)
unfolding set_document_value safe_definition file_key editable_field_definitions get_entry_value
    get_by_path get_key get_item lookup text list_eqb join decimal print_digits
    parse_value_by_existing_type trim listen_address_id rpc_url_id
renamed_small = refl

set_document_value_lem_example :
    (get_entry_value ckb first_module renamed_editor ≡ some (str (text "Miner")))
    × ((old : Value) × (get_entry_value ckb first_module small_editor ≡ some old)
        × (type_of_toml_value (str (text "Miner")) ≡ type_of_toml_value old))
    × ((other : DocumentId) (js : List Text)
        → Diverges first_module js
        → get_entry_value other js renamed_editor ≡ get_entry_value other js small_editor)
    × (small_values ≡ small_values)
unfolding safe_definition file_key editable_field_definitions text list_eqb join listen_address_id
    rpc_url_id
set_document_value_lem_example =
    set_document_value_lem small_platform ckb (text "rpc") (text "modules" ∷ text "0" ∷ [])
      (text " Miner ") small_editor renamed_editor (str (text "Miner")) refl renamed_small
