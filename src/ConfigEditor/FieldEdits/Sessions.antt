-- ===== src/ConfigEditor/FieldEdits/Sessions.antt =====
-- A session of the terminal editor over the fields: opened, then fields set or toggled in any order.
-- An edit that fails leaves the editor as it is.
use offckb.Base.{◌≡◌, ok}
use offckb.Base.Text.{Text}
use offckb.Value.{Value}
use offckb.ConfigEditor.{Platform, Editor}
use offckb.ConfigEditor.FieldEdits.{new_editor, set_field_value, toggle_boolean_field}
use offckb.ConfigEditor.FieldEdits.Stores.{IsSynchronised}
use offckb.ConfigEditor.FieldEdits.Opening.{new_editor-IsSynchronised}
use offckb.ConfigEditor.FieldEdits.Laws.{
  set_field_value-IsSynchronised, toggle_boolean_field-IsSynchronised,
}

-- The editors that a session reaches.
pub data Reached (p : Platform) : Editor → Type 0 where
  opens :
      (config_path : Text) (ckb_config miner_config : Value) (e : Editor)
      → new_editor p config_path ckb_config miner_config ≡ ok e
      → Reached p e
  sets :
      (e : Editor) (id raw : Text) (v : Value) (e' : Editor)
      → Reached p e
      → set_field_value p id raw e ≡ ok (v, e')
      → Reached p e'
  toggles :
      (e : Editor) (id : Text) (v : Value) (e' : Editor)
      → Reached p e
      → toggle_boolean_field id e ≡ ok (v, e')
      → Reached p e'

-- Whatever fields a session sets and toggles, each editable field has one value of its type, which
-- the record of values and the document both hold.
pub Reached-IsSynchronised : (p : Platform) (e : Editor) → Reached p e → IsSynchronised e
Reached-IsSynchronised p _ (opens config_path ckb_config miner_config e h) =
    (new_editor-IsSynchronised p config_path ckb_config miner_config e h).0
Reached-IsSynchronised p _ (sets e id raw v e' r h) =
    (set_field_value-IsSynchronised p id raw e e' v (Reached-IsSynchronised p e r) h).0
Reached-IsSynchronised p _ (toggles e id v e' r h) =
    (toggle_boolean_field-IsSynchronised id e e' v (Reached-IsSynchronised p e r) h).0
