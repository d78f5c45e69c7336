-- ===== src/ConfigEditor/Entries.antt =====
-- `getEntriesForDocument`: the rows that the editor lists for a document.
pub mod Laws
use offckb.Base.{
  ℕ, suc, ◌+◌, Bool, true, false, ◌||◌, List, [], ◌∷◌, ◌++◌, ltb, if◌then◌else◌, length, take,
}
use offckb.Base.Text.{Text, text, join, decimal}
use offckb.Value.{
  Value, null, bool, num, str, arr, obj, Items, nil, cons, Fields, end, field, items,
}
use offckb.ConfigEditor.{
  Platform, DocumentId, EntryType, object_entry, string_entry, number_entry, boolean_entry,
  type_of_toml_value, Editor, document,
}
use offckb.ConfigEditor.DocumentEdits.{get_entry_value}

pub record TomlEntry : Type 0 where
  pub document_id : DocumentId
  pub path : List Text
  pub path_text : Text
  pub type : EntryType
  pub value_preview : Text
  pub editable : Bool

-- `Object.keys(value).length`
unfoldable pub count_keys : Fields → ℕ
count_keys end = 0
count_keys (field k v fs) = suc (count_keys fs)

module _ (p : Platform) where
  unfoldable pub value_preview : Value → Text
  unfolding count_keys items text decimal
  value_preview (arr vs) = text "[" ++ decimal (length (items vs)) ++ text "]"
  value_preview (obj fs) = text "[" ++ decimal (count_keys fs) ++ text " keys]"
  value_preview (str s) = if ltb 80 (length s) then take 80 s ++ text "..." else s
  value_preview (num n) = p.number_text n
  value_preview (bool true) = text "true"
  value_preview (bool false) = text "false"
  value_preview null = text "null"

  abbrev is_editable : EntryType → Bool
  is_editable string_entry = true
  is_editable number_entry = true
  is_editable boolean_entry = true
  is_editable _ = false

  abbrev preview_of : EntryType → Value → Text
  preview_of object_entry v = []
  preview_of _ v = value_preview v

  unfoldable pub entry : DocumentId → Value → List Text → TomlEntry
  unfolding value_preview join text
  entry id v path = record {
    document_id = id;
    path = path;
    path_text = join (text ".") path;
    type = type_of_toml_value v;
    value_preview = preview_of (type_of_toml_value v) v;
    editable = is_editable (type_of_toml_value v);
  }

  -- The row of the value itself, which the root has not.
  unfoldable pub own_entry : DocumentId → Value → List Text → List TomlEntry
  unfolding entry
  own_entry id v [] = []
  own_entry id v (k ∷ ks) = entry id v (k ∷ ks) ∷ []

  unfoldable mutual
    unfolding own_entry decimal

    pub walk : DocumentId → Value → List Text → List TomlEntry
    walk id (arr vs) path = own_entry id (arr vs) path ++ walk_items id 0 vs path
    walk id (obj fs) path = own_entry id (obj fs) path ++ walk_fields id fs path
    walk id (str s) path = own_entry id (str s) path
    walk id (num n) path = own_entry id (num n) path
    walk id (bool b) path = own_entry id (bool b) path
    walk id null path = own_entry id null path

    pub walk_items : DocumentId → ℕ → Items → List Text → List TomlEntry
    walk_items id i nil path = []
    walk_items id i (cons v vs) path =
        walk id v (path ++ decimal i ∷ []) ++ walk_items id (suc i) vs path

    pub walk_fields : DocumentId → Fields → List Text → List TomlEntry
    walk_fields id end path = []
    walk_fields id (field k v fs) path = walk id v (path ++ k ∷ []) ++ walk_fields id fs path

  unfoldable pub get_entries_for_document : DocumentId → Editor → List TomlEntry
  unfolding walk
  get_entries_for_document id e = walk id (document id e) []
