-- ===== src/Fiber/NodeConfig.antt =====
-- src/fiber/config-gen.ts: the configuration of one node, as the document that is printed to
-- config.yml. The template of the FNN release and the deployed scripts come from outside.
pub mod Merging
pub mod Managed
use offckb.Base.{
  ℕ, zero, suc, ◌+◌, Bool, true, false, Option, none, some, List, [], ◌∷◌, ◌++◌, map, length, ltb,
  if◌then◌else◌, Result, ok, err, ◌>>=◌, ◌>>◌, guard,
}
use offckb.Base.Text.{Text, text, decimal}
use offckb.Value.{
  pos, integer, Value, bool, num, str, arr, obj, nil, Fields, end, field, lookup, insert, of_list,
}
use offckb.Fiber.Paths.{fiber_p2p_addr, fiber_rpc_addr}
use offckb.Fiber.Nodes.{FiberNodeEntry}

-- `mergeNodeConfig`: `merge` runs the loop on `result`, with the entries that are left.
unfoldable mutual
  unfolding lookup insert

  pub merge_value : Option Value → Value → Value
  merge_value (some (obj existing)) (obj value) = obj (merge_node_config existing value)
  merge_value _ value = value

  pub merge_node_config : Fields → Fields → Fields
  merge_node_config result end = result
  merge_node_config result (field key value entries) =
      merge_node_config (insert key (merge_value (lookup key result) value) result) entries

pub record ChainScripts : Type 0 where
  pub fiber_scripts : Value
  pub udt_whitelist : Value

pub data ConfigError : Type 0 where
  not_a_mapping : ConfigError
  name_too_long : Text → ConfigError

-- `isPlainObject(template.x) ? { ...template.x } : {}`
abbrev pub section : Option Value → Fields
section (some (obj fs)) = fs
section _ = end

abbrev pub text_items : List Text → Value
text_items ts = arr (of_list (map str ts))

unfoldable pub enabled_rpc_modules : Value
enabled_rpc_modules =
    text_items
      (map text ("channel" ∷ "payment" ∷ "graph" ∷ "info" ∷ "invoice" ∷ "peer" ∷ "watchtower" ∷ []))

unfoldable pub dev_toml_relative_to_node : Value
dev_toml_relative_to_node = str (text "../../../specs/dev.toml")

unfoldable pub node_name : ℕ → Text
node_name node_id = text "offckb-fnn-" ++ decimal node_id

-- The assignments to a section, in order.
abbrev pub assign : List (Text × Value) → Fields → Fields
assign [] fs = fs
assign ((k, v) ∷ kvs) fs = assign kvs (insert k v fs)

abbrev pub interval : Value
interval = num (integer (pos 1000))

abbrev pub fiber_values : ℕ → ChainScripts → List (Text × Value)
fiber_values node_id scripts =
    (text "chain", dev_toml_relative_to_node)
    ∷ (text "listening_addr", str (fiber_p2p_addr node_id))
    ∷ (text "bootnode_addrs", arr nil)
    ∷ (text "announce_listening_addr", bool true)
    ∷ (text "announce_private_addr", bool true)
    ∷ (text "gossip_network_maintenance_interval_ms", interval)
    ∷ (text "gossip_store_maintenance_interval_ms", interval)
    ∷ (text "announced_node_name", str (node_name node_id))
    ∷ (text "scripts", scripts.fiber_scripts)
    ∷ []

abbrev pub rpc_values : ℕ → List (Text × Value)
rpc_values node_id =
    (text "listening_addr", str (fiber_rpc_addr node_id))
    ∷ (text "enabled_modules", enabled_rpc_modules)
    ∷ (text "cors_enabled", bool false)
    ∷ []

abbrev pub ckb_values : Text → ChainScripts → List (Text × Value)
ckb_values rpc_url scripts =
    (text "rpc_url", str rpc_url) ∷ (text "udt_whitelist", scripts.udt_whitelist) ∷ []

unfoldable pub services : Value
services = text_items (map text ("fiber" ∷ "rpc" ∷ "ckb" ∷ []))

-- The configuration before the overrides of the node.
abbrev pub base_values : ℕ → ChainScripts → Text → Fields → List (Text × Value)
base_values node_id scripts rpc_url template =
    (
      text "fiber",
      obj (assign (fiber_values node_id scripts) (section (lookup (text "fiber") template))),
    )
    ∷ (text "rpc", obj (assign (rpc_values node_id) (section (lookup (text "rpc") template))))
    ∷ (
      text "ckb",
      obj (assign (ckb_values rpc_url scripts) (section (lookup (text "ckb") template))),
    )
    ∷ (text "services", services)
    ∷ []

unfoldable pub base_config : ℕ → ChainScripts → Text → Fields → Fields
unfolding insert lookup
base_config node_id scripts rpc_url template =
    assign (base_values node_id scripts rpc_url template) template

-- `generateNodeConfig`, from the loaded template; the node's name is ASCII, so its units are bytes.
unfoldable pub generate_node_config :
    FiberNodeEntry → ChainScripts → Text → Value → Result ConfigError Fields
unfolding merge_node_config base_config
generate_node_config node scripts rpc_url (obj template) =
    if ltb 32 (length (node_name node.id))
    then err (name_too_long (node_name node.id))
    else ok (merge_node_config (base_config node.id scripts rpc_url template) node.config)
generate_node_config node scripts rpc_url _ = err not_a_mapping
