-- ===== src/Chain/Migrating.antt =====
-- `migrateLegacyDevnetRpcConfig`, `devnetConfigHasTerminalRpc`, `removeTerminalRpcModule` and the
-- steps of `initChainIfNeeded` in src/node/init-chain.ts, on the text of ckb.toml.
pub mod Laws
use offckb.Base.{
  ℕ, zero, suc, Bool, true, false, not, ◌&&◌, ◌||◌, Option, none, some, List, [], ◌∷◌, ◌++◌,
  if◌then◌else◌, every, any, ◌==◌, text_eq,
}
use offckb.Base.Text.{Text, text, trim, is_empty, contains, split_on, join}
use offckb.Value.{Value, null, str, arr, obj, items, lookup, Items}
use offckb.Value.Paths.{get_key}
use offckb.Chain.Lines.{Section, find_rpc_section}
use offckb.Chain.Terminal.{add_terminal_module, remove_terminal_module}
use offckb.Chain.Listening.{enable_tcp_listen_address}

-- `toml.parse`, where `none` is an exception, and `semver`: `none` for a version that is not valid,
-- and whether one that is satisfies >=0.205.0-0, prereleases included.
pub record Platform : Type 0 where
  pub parse_toml : Text → Option Value
  pub satisfies_terminal : Text → Option Bool

abbrev pub or_true : Option Bool → Bool
or_true none = true
or_true (some b) = b

-- `supportsTerminalRpcModule`
unfoldable pub supports_terminal_rpc_module : Platform → Option Text → Bool
supports_terminal_rpc_module p none = true
supports_terminal_rpc_module p (some version) = or_true (p.satisfies_terminal version)

abbrev pub text_of : Value → Option Text
text_of (str s) = some s
text_of _ = none

-- The texts of an array of texts.
abbrev pub all_texts : List Value → Option (List Text)
all_texts [] = some []
all_texts (v ∷ vs) = elim (text_of v) [
  | none ↦ none
  | some s ↦ elim (all_texts vs) [ none ↦ none | some ss ↦ some (s ∷ ss) ]
]

abbrev pub module_names : Option Value → Option (List Text)
module_names (some (arr vs)) = all_texts (items vs)
module_names _ = none

abbrev pub terminal_name : Text
terminal_name = text "Terminal"

abbrev pub has_terminal : Option (List Text) → Bool
has_terminal none = false
has_terminal (some names) = contains names terminal_name

abbrev pub lacks_terminal : Option (List Text) → Bool
lacks_terminal none = false
lacks_terminal (some names) = not (contains names terminal_name)

abbrev pub rpc_modules : Option Value → Option Value
rpc_modules none = none
rpc_modules (some rpc) = get_key (text "modules") rpc

abbrev pub terminal_in : Option Value → Bool
terminal_in none = false
terminal_in (some v) = has_terminal (module_names (rpc_modules (get_key (text "rpc") v)))

-- `devnetConfigHasTerminalRpc`, on the file, if it is there.
unfoldable pub devnet_config_has_terminal_rpc : Platform → Option Text → Bool
unfolding get_key lookup text items
devnet_config_has_terminal_rpc p none = false
devnet_config_has_terminal_rpc p (some source) = terminal_in (p.parse_toml source)

-- `removeTerminalRpcModule`: the file after it, unchanged where the section or the entry is missing.
abbrev pub after_removal : Text → Option (List Text) → Text
after_removal source none = source
after_removal source (some lines) = join (10 ∷ []) lines

unfoldable pub remove_terminal_rpc_module : Text → Text
unfolding split_on find_rpc_section remove_terminal_module join
remove_terminal_rpc_module source = elim (find_rpc_section (split_on 10 source)) [
  | none ↦ source
  | some s ↦ after_removal source (remove_terminal_module (split_on 10 source) s)
]

-- `typeof address !== 'string' || address.trim().length === 0`
abbrev pub needs_address : Option Value → Bool
needs_address (some (str s)) = is_empty (trim s)
needs_address _ = true

pub record Needs : Type 0 where
  pub terminal : Bool
  pub tcp : Bool

abbrev pub needs_of : Bool → Value → Needs
needs_of supported rpc = record {
  terminal = supported && lacks_terminal (module_names (get_key (text "modules") rpc));
  tcp = needs_address (get_key (text "tcp_listen_address") rpc);
}

-- The section of the parsed file, an object or an array.
abbrev pub rpc_object : Option Value → Option Value
rpc_object (some (obj fs)) = some (obj fs)
rpc_object (some (arr vs)) = some (arr vs)
rpc_object _ = none

abbrev pub needs_in : Bool → Option Value → Option Needs
needs_in supported none = none
needs_in supported (some rpc) = some (needs_of supported rpc)

abbrev pub needs_parsed : Bool → Option Value → Option Needs
needs_parsed supported none = none
needs_parsed supported (some v) = needs_in supported (rpc_object (get_key (text "rpc") v))

unfoldable pub needs : Platform → Option Text → Text → Option Needs
unfolding supports_terminal_rpc_module get_key lookup text items
needs p version source = needs_parsed (supports_terminal_rpc_module p version) (p.parse_toml source)

abbrev pub or_lines : List Text → Option (List Text) → List Text
or_lines lines none = lines
or_lines lines (some more) = more

abbrev pub is_changed : Option (List Text) → Bool
is_changed none = false
is_changed (some lines) = true

-- `findRpcSection(lines) ?? section`
abbrev pub or_section : Section → Option Section → Section
or_section s none = s
or_section s (some t) = t

abbrev pub with_address : Bool → List Text → Section → List Text
with_address true lines s = enable_tcp_listen_address lines (or_section s (find_rpc_section lines))
with_address false lines s = lines

abbrev pub with_terminal : Bool → List Text → Section → Option (List Text)
with_terminal true lines s = add_terminal_module lines s
with_terminal false lines s = none

-- The lines after both edits, if one was made.
abbrev pub edited : Bool → List Text → Section → Option (List Text) → Option (List Text)
edited tcp lines s added =
    if is_changed added || tcp then some (with_address tcp (or_lines lines added) s) else none

abbrev pub in_section : Bool → Bool → List Text → Option Section → Option (List Text)
in_section terminal tcp lines none = none
in_section terminal tcp lines (some s) = edited tcp lines s (with_terminal terminal lines s)

abbrev pub migrate_lines : Bool → Bool → List Text → Option (List Text)
migrate_lines terminal tcp lines =
    if terminal || tcp then in_section terminal tcp lines (find_rpc_section lines) else none

abbrev pub joined_lines : Option (List Text) → Option Text
joined_lines none = none
joined_lines (some lines) = some (join (10 ∷ []) lines)

abbrev pub by_needs : Text → Option Needs → Option Text
by_needs source none = none
by_needs source (some n) = joined_lines (migrate_lines n.terminal n.tcp (split_on 10 source))

-- `migrateLegacyDevnetRpcConfig`: the new text, if the file changes.
unfoldable pub migrate_legacy_devnet_rpc_config : Platform → Option Text → Option Text → Option Text
unfolding needs find_rpc_section add_terminal_module enable_tcp_listen_address split_on join
migrate_legacy_devnet_rpc_config p version none = none
migrate_legacy_devnet_rpc_config p version (some source) = by_needs source (needs p version source)

-- The files of the devnet's configuration that the program looks at.
pub record ConfigFiles : Type 0 where
  pub ckb_toml : Option Text
  pub miner_toml : Option Text
  pub dev_toml : Option Text

-- The bundled templates; `miner_for_devnet` has the URL of the RPC put in.
pub record Templates : Type 0 where
  pub ckb_toml : Text
  pub miner_for_devnet : Text
  pub dev_toml : Text

abbrev pub or_template : Text → Option Text → Text
or_template template none = template
or_template template (some s) = s

abbrev pub is_there : Option Text → Bool
is_there none = false
is_there (some s) = true

abbrev pub fresh_ckb_toml : Platform → Option Text → Text → Text
fresh_ckb_toml p version template =
    if supports_terminal_rpc_module p version then template else remove_terminal_rpc_module template

abbrev pub laid_ckb_toml : Platform → Option Text → Templates → Option Text → Text
laid_ckb_toml p version t none = fresh_ckb_toml p version t.ckb_toml
laid_ckb_toml p version t (some s) = s

-- The block under `!isInitialized`. The copy overwrites no file that is there.
abbrev pub laid_down : Platform → Option Text → Templates → ConfigFiles → ConfigFiles
laid_down p version t f = record {
  ckb_toml = some (laid_ckb_toml p version t f.ckb_toml);
  miner_toml = some (or_template t.miner_for_devnet f.miner_toml);
  dev_toml = some (or_template t.dev_toml f.dev_toml);
}

abbrev pub rewritten : ConfigFiles → Option Text → ConfigFiles
rewritten f none = f
rewritten f (some s) = record f { ckb_toml = some s }

abbrev pub migrated : Platform → Option Text → ConfigFiles → ConfigFiles
migrated p version f = rewritten f (migrate_legacy_devnet_rpc_config p version f.ckb_toml)

-- `initChainIfNeeded`
unfoldable pub init_chain_if_needed : Platform → Option Text → Templates → ConfigFiles → ConfigFiles
unfolding migrate_legacy_devnet_rpc_config remove_terminal_rpc_module
init_chain_if_needed p version t f = migrated p version (
    if is_there f.ckb_toml && is_there f.miner_toml && is_there f.dev_toml
    then f
    else laid_down p version t f)
