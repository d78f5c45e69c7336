-- ===== src/ConfigEditor/Save.antt =====
-- `validateBeforeSave`, `save` and `createDevnetConfigEditor`, with the disk that they use: what
-- stands at a path, and the calls of `fs` that change it.
pub mod Checks
pub mod Accepted
pub mod Atomic
use offckb.Base.{
  ◌≡◌, Bool, true, false, not, ◌&&◌, ◌||◌, Option, none, some, List, [], ◌∷◌, ◌++◌, map, any,
  if◌then◌else◌, ◌==◌, text_eq, Result, ok, err, ◌>>=◌, ◌>>◌, guard,
}
use offckb.Base.Text.{Text, text, trim, is_empty, contains}
use offckb.Value.{Value, null, bool, num, str, arr, obj, items}
use offckb.Value.Paths.{get_by_path}
use offckb.ConfigEditor.{
  Platform, EditError, invalid_config, initialization, unreadable, unprintable, Editor,
}
use offckb.ConfigEditor.Inputs.{
  is_non_empty_string, is_string_array, validate_host_port, validate_http_url,
}
use offckb.ConfigEditor.FieldEdits.{new_editor}

-- `requirePath(target, path, guard, message)`
unfoldable pub require_path : Value → List Text → (Value → Bool) → Text → Result EditError Value
require_path target path test message = elim (get_by_path target path) [
  | none ↦ err (invalid_config message)
  | some v ↦ if test v then ok v else err (invalid_config message)
]

abbrev pub string_of : Value → Text
string_of (str s) = s
string_of _ = []

abbrev pub strings_of : Value → List Text
strings_of (arr vs) = map string_of (items vs)
strings_of _ = []

abbrev pub is_blank : Text → Bool
is_blank s = is_empty (trim s)

abbrev pub no_items : List Text → Bool
no_items [] = true
no_items (_ ∷ _) = false

unfoldable pub listen_address_path : List Text
unfolding text
listen_address_path = text "rpc" ∷ text "listen_address" ∷ []

unfoldable pub modules_path : List Text
unfolding text
modules_path = text "rpc" ∷ text "modules" ∷ []

unfoldable pub protocols_path : List Text
unfolding text
protocols_path = text "network" ∷ text "support_protocols" ∷ []

unfoldable pub rpc_url_path : List Text
unfolding text
rpc_url_path = text "miner" ∷ text "client" ∷ text "rpc_url" ∷ []

abbrev refuse : Text → EditError
refuse message = invalid_config message

unfoldable pub validate_before_save : Platform → Editor → Result EditError (Unit {0})
unfolding require_path
validate_before_save p e = do
  listen_address ←
      require_path e.ckb_config listen_address_path is_non_empty_string (text "listen_address type")
  guard (validate_host_port p (string_of listen_address)) (refuse (text "listen_address format"))
  rpc_modules ← require_path e.ckb_config modules_path is_string_array (text "modules type")
  guard (not (no_items (strings_of rpc_modules))) (refuse (text "modules empty"))
  guard (not (any is_blank (strings_of rpc_modules))) (refuse (text "module name empty"))
  protocols ← require_path e.ckb_config protocols_path is_string_array (text "protocols type")
  guard
      (contains (strings_of protocols) (text "Sync")
        && contains (strings_of protocols) (text "Identify"))
      (refuse (text "protocols missing"))
  guard (not (any is_blank (strings_of protocols))) (refuse (text "protocol name empty"))
  url ← require_path e.miner_config rpc_url_path is_non_empty_string (text "rpc_url type")
  guard (validate_http_url p (string_of url)) (refuse (text "rpc_url format"))

pub data Entry : Type 0 where
  directory : Entry
  file : Text → Entry

abbrev pub Disk : Type 0
Disk = Text → Option Entry

abbrev pub update : Text → Option Entry → Disk → Disk
update path entry d q = if path == q then entry else d q

-- The calls that change the disk.
pub data Effect : Type 0 where
  write : Text → Text → Effect
  rename : Text → Text → Effect

-- `renameSync` takes the place of what stands at the target, and fails without a source.
abbrev pub rename_to : Text → Text → Disk → Option Entry → Option Disk
rename_to from to d none = none
rename_to from to d (some entry) = some (update to (some entry) (update from none d))

unfoldable pub apply : Effect → Disk → Option Disk
apply (write path content) d = some (update path (some (file content)) d)
apply (rename from to) d = rename_to from to d (d from)

unfoldable pub temp_path : Text → Text
unfolding text
temp_path path = path ++ text ".tmp"

-- `writeTomlFileAtomic(filePath, data)`: the text is printed before the first call, and `none` is
-- the exception of the printer.
unfoldable pub write_toml_file_atomic : Platform → Text → Value → Option (List Effect)
unfolding temp_path
write_toml_file_atomic p path v = elim (p.stringify_toml v) [
  | none ↦ none
  | some content ↦ some (write (temp_path path) content ∷ rename (temp_path path) path ∷ [])
]

-- The two files in turn. The second document is printed after the first file is written.
abbrev pub write_both :
    Editor → Option (List Effect) → Option (List Effect) → List Effect × Option EditError
write_both e none _ = ([], some (unprintable e.ckb_toml_path))
write_both e (some first) none = (first, some (unprintable e.miner_toml_path))
write_both e (some first) (some second) = (first ++ second, none)

abbrev pub if_valid :
    List Effect × Option EditError → Result EditError (Unit {0}) → List Effect × Option EditError
if_valid written (err error) = ([], some error)
if_valid written (ok _) = written

-- `save()`: the effects in order, and the error that ends them.
unfoldable pub save : Platform → Editor → List Effect × Option EditError
unfolding validate_before_save write_toml_file_atomic
save p e =
    if_valid
      (write_both e (write_toml_file_atomic p e.ckb_toml_path e.ckb_config)
        (write_toml_file_atomic p e.miner_toml_path e.miner_config))
      (validate_before_save p e)

-- `fs.existsSync(path)`
abbrev pub exists : Option Entry → Bool
exists none = false
exists (some _) = true

-- `readTomlFile(filePath)`, and the exceptions of the two calls in it.
unfoldable pub read_toml_file : Platform → Text → Disk → Result EditError Value
read_toml_file p path d = elim (d path) [
  | some (file content) ↦ elim (p.parse_toml content) [
    | none ↦ err (unreadable path)
    | some v ↦ ok v
  ]
  | _ ↦ err (unreadable path)
]

unfoldable pub create_devnet_config_editor : Platform → Text → Disk → Result EditError Editor
unfolding read_toml_file
create_devnet_config_editor p config_path d = do
  let ckb_toml_path = p.join_path config_path (text "ckb.toml")
  let miner_toml_path = p.join_path config_path (text "ckb-miner.toml")
  guard (exists (d config_path)) (initialization config_path)
  guard (exists (d ckb_toml_path)) (initialization ckb_toml_path)
  guard (exists (d miner_toml_path)) (initialization miner_toml_path)
  ckb_config ← read_toml_file p ckb_toml_path d
  miner_config ← read_toml_file p miner_toml_path d
  new_editor p config_path ckb_config miner_config
