-- ===== src/Fiber/NodeConfig/Managed.antt =====
-- The values of a node's configuration that the program manages.
use offckb.Base.{
  ℕ, ◌≡◌, ◌≤◌, inl, inr, refl, ap, ◌∙◌, false, Option, none, some, List, [], ◌∷◌, if◌then◌else◌,
  ◌==◌, text_eq, list_eqb, All, length, ltb, lt→ltb, ◌<◌, ◌+◌, ◌/◌, ◌%◌, zero, suc, Bool-cases, ok,
  arith,
}
use offckb.Base.Text.{Text, text, decimal, print_digits}
use offckb.Value.{Value, null, bool, num, str, arr, obj, nil, Fields, end, field, lookup, insert}
use offckb.Value.Paths.Laws.{lookup-insert}
use offckb.Fiber.Paths.{max_fiber_nodes, fiber_p2p_addr, fiber_rpc_addr}
use offckb.Fiber.Nodes.{FiberNodeEntry, managed_config_paths, value_at, assert_no_managed_fields}
use offckb.Fiber.Nodes.Writing.{assert_no_managed_complete}
use offckb.Fiber.Nodes.Reading.{Lacks, IsEntry}
use offckb.Fiber.NodeConfig.{
  ChainScripts, merge_node_config, assign, base_values, fiber_values, rpc_values, ckb_values,
  section, dev_toml_relative_to_node, services, node_name, base_config, generate_node_config,
}
use offckb.Fiber.NodeConfig.Merging.{
  value_at_found, value_at_end, lookup-merge_node_config, merge_value-leaf, leaf-HasKeysOnce,
  is_mapping, HasKeysOnce, LeavesOpen, merge_node_config-keeps,
}

-- What a list of assignments leaves at a key.
assigned : Text → List (Text × Value) → Option Value → Option Value
assigned k [] o = o
assigned k ((j, v) ∷ kvs) o = assigned k kvs (if j == k then some v else o)

lookup-assign :
    (k : Text) (kvs : List (Text × Value)) (fs : Fields)
    → lookup k (assign kvs fs) ≡ assigned k kvs (lookup k fs)
unfolding assigned
lookup-assign k [] fs = refl
lookup-assign k ((j, v) ∷ kvs) fs =
    lookup-assign k kvs (insert j v fs) ∙ ap (assigned k kvs) (lookup-insert k j v fs)

-- The name of a node fits.
print_digits_one : (f n : ℕ) (out : Text) → 0 < f → n < 10 → print_digits f n out ≡ (b'0' + n) ∷ out
unfolding print_digits
print_digits_one zero n out lt small = absurd (omega arith)
print_digits_one (suc f) n out lt small = rw (lt→ltb n 10 small) refl

length-decimal : (n : ℕ) → n ≤ max_fiber_nodes → length (decimal n) ≤ 2
unfolding decimal print_digits
length-decimal n h = elim (Bool-cases (ltb n 10)) [
  | inl small ↦ rw small (omega arith)
  | inr large ↦ rw large (
      rw
        (print_digits_one n (n / 10) ((b'0' + n % 10) ∷ []) (ground (arith, large))
          (omega (arith, h)))
        (omega arith))
]

node_name_fits : (n : ℕ) → n ≤ max_fiber_nodes → ltb 32 (length (node_name n)) ≡ false
unfolding node_name text
node_name_fits n h = ground (arith, length-decimal n h)

value_at_last : (j : Text) (fs : Fields) → value_at (obj fs) (j ∷ []) ≡ lookup j fs
unfolding value_at
value_at_last j fs = ground arith

-- What a section that is assigned to, among the assignments to a template, has at a key.
section_value :
    (k j : Text) (kvs : List (Text × Value)) (template sec : Fields)
    → assigned k kvs (lookup k template) ≡ some (obj sec)
    → value_at (obj (assign kvs template)) (k ∷ j ∷ []) ≡ lookup j sec
section_value k j kvs template sec h =
    value_at_found k (j ∷ []) (assign kvs template) (obj sec) (lookup-assign k kvs template ∙ h)
    ∙ value_at_last j sec

-- The values that are managed: at each path the one that the program means, and the template's
-- own `store_path`.
abbrev pub HasManaged : ℕ → ChainScripts → Text → Fields → Fields → Type 0
HasManaged id scripts url template fs =
    (value_at (obj fs) (text "fiber" ∷ text "chain" ∷ []) ≡ some dev_toml_relative_to_node)
    × (value_at (obj fs) (text "fiber" ∷ text "scripts" ∷ []) ≡ some scripts.fiber_scripts)
    × (value_at (obj fs) (text "fiber" ∷ text "listening_addr" ∷ [])
        ≡ some (str (fiber_p2p_addr id)))
    × (value_at (obj fs) (text "fiber" ∷ text "bootnode_addrs" ∷ []) ≡ some (arr nil))
    × (value_at (obj fs) (text "fiber" ∷ text "store_path" ∷ [])
        ≡ lookup (text "store_path") (section (lookup (text "fiber") template)))
    × (value_at (obj fs) (text "rpc" ∷ text "listening_addr" ∷ []) ≡ some (str (fiber_rpc_addr id)))
    × (value_at (obj fs) (text "ckb" ∷ text "rpc_url" ∷ []) ≡ some (str url))
    × (value_at (obj fs) (text "ckb" ∷ text "udt_whitelist" ∷ []) ≡ some scripts.udt_whitelist)
    × (value_at (obj fs) (text "services" ∷ []) ≡ some services)

base_config-HasManaged :
    (id : ℕ) (scripts : ChainScripts) (url : Text) (template : Fields)
    → HasManaged id scripts url template (base_config id scripts url template)
unfolding base_config assigned text list_eqb
base_config-HasManaged id scripts url template =
    let kvs = base_values id scripts url template in
    let f = assign (fiber_values id scripts) (section (lookup (text "fiber") template)) in
    let r = assign (rpc_values id) (section (lookup (text "rpc") template)) in
    let c = assign (ckb_values url scripts) (section (lookup (text "ckb") template)) in
    let in_fiber : (j : Text)
        → value_at (obj (assign kvs template)) (text "fiber" ∷ j ∷ [])
          ≡ assigned j (fiber_values id scripts)
              (lookup j (section (lookup (text "fiber") template))) =
      λ j.
        section_value (text "fiber") j kvs template f refl
        ∙ lookup-assign j (fiber_values id scripts) (section (lookup (text "fiber") template)) in
    let in_ckb : (j : Text)
        → value_at (obj (assign kvs template)) (text "ckb" ∷ j ∷ [])
          ≡ assigned j (ckb_values url scripts)
              (lookup j (section (lookup (text "ckb") template))) =
      λ j.
        section_value (text "ckb") j kvs template c refl
        ∙ lookup-assign j (ckb_values url scripts) (section (lookup (text "ckb") template)) in
    (
      in_fiber (text "chain"),
      in_fiber (text "scripts"),
      in_fiber (text "listening_addr"),
      in_fiber (text "bootnode_addrs"),
      in_fiber (text "store_path"),
      section_value (text "rpc") (text "listening_addr") kvs template r refl
          ∙ lookup-assign (text "listening_addr") (rpc_values id)
              (section (lookup (text "rpc") template)),
      in_ckb (text "rpc_url"),
      in_ckb (text "udt_whitelist"),
      value_at_last (text "services") (assign kvs template)
          ∙ lookup-assign (text "services") kvs template,
    )

keeps_path :
    (base fs : Fields) (path : List Text)
    → HasKeysOnce fs
    → value_at (obj fs) path ≡ none
    → LeavesOpen fs path
    → value_at (obj (merge_node_config base fs)) path ≡ value_at (obj base) path
keeps_path base fs [] h gone leaves = absurd (ground (arith, value_at_end (obj fs), gone))
keeps_path base fs (k ∷ ks) h gone leaves = merge_node_config-keeps base fs k ks h gone leaves

keeps_paths :
    (base fs : Fields) (paths : List (List Text))
    → HasKeysOnce fs
    → Lacks paths fs
    → All (LeavesOpen fs) paths
    → All (λ path. value_at (obj (merge_node_config base fs)) path ≡ value_at (obj base) path) paths
keeps_paths base fs [] h gone leaves = tt
keeps_paths base fs (p ∷ ps) h gone leaves =
    (keeps_path base fs p h gone.0 leaves.0, keeps_paths base fs ps h gone.1 leaves.1)

-- A template that is a mapping and a node that is read from the file give a configuration, and it
-- has the managed values, whatever else the node's configuration overrides, as long as that is a
-- mapping with each key once and does not put something else than a mapping in the place of the
-- sections fiber, rpc and ckb.
pub generate_node_config-HasManaged :
    (node : FiberNodeEntry) (scripts : ChainScripts) (url : Text) (template : Fields)
    → IsEntry node
    → HasKeysOnce node.config
    → All (LeavesOpen node.config) managed_config_paths
    → (fs : Fields) × (generate_node_config node scripts url (obj template) ≡ ok fs)
      × HasManaged node.id scripts url template fs
unfolding generate_node_config managed_config_paths
generate_node_config-HasManaged node scripts url template entry once leaves =
    let base = base_config node.id scripts url template in
    let k = keeps_paths base node.config managed_config_paths once entry.1 leaves in
    let b = base_config-HasManaged node.id scripts url template in
    (
      merge_node_config base node.config,
      rw (node_name_fits node.id entry.0) refl,
      (
        k.0 ∙ b.0,
        k.1.0 ∙ b.1,
        k.1.1.0 ∙ b.2,
        k.1.1.1.0 ∙ b.3,
        k.1.1.1.1.0 ∙ b.4,
        k.1.1.1.1.1.0 ∙ b.5,
        k.1.1.1.1.1.1.0 ∙ b.6,
        k.1.1.1.1.1.1.1.0 ∙ b.7,
        k.1.1.1.1.1.1.1.1.0 ∙ b.8,
      ),
    )

abbrev pub only_fiber : Value → Fields
only_fiber v = field (text "fiber") v end

leaf-value_at : (v : Value) (j : Text) → is_mapping v ≡ false → value_at v (j ∷ []) ≡ none
unfolding value_at
leaf-value_at (obj fs) j h = absurd (ground arith)
leaf-value_at null j h = refl
leaf-value_at (bool b) j h = refl
leaf-value_at (num n) j h = refl
leaf-value_at (str s) j h = refl
leaf-value_at (arr vs) j h = refl

only_fiber-Lacks : (v : Value) → is_mapping v ≡ false → Lacks managed_config_paths (only_fiber v)
unfolding managed_config_paths value_at lookup text list_eqb
only_fiber-Lacks v h = (
  leaf-value_at v (text "chain") h,
  (
    leaf-value_at v (text "scripts") h,
    (
      leaf-value_at v (text "listening_addr") h,
      (
        leaf-value_at v (text "bootnode_addrs") h,
        (leaf-value_at v (text "store_path") h, (refl, (refl, (refl, (refl, tt))))),
      ),
    ),
  ),
)

replaced_lookup :
    (base : Fields) (v : Value)
    → is_mapping v ≡ false
    → lookup (text "fiber") (merge_node_config base (only_fiber v)) ≡ some v
unfolding lookup text list_eqb
replaced_lookup base v leaf =
    lookup-merge_node_config (text "fiber") base (only_fiber v)
      (leaf-HasKeysOnce (text "fiber") v leaf)
    ∙ ap some (merge_value-leaf (lookup (text "fiber") base) v leaf)

-- The check of the managed paths lets a node put a value that is no mapping, `null` for one, in
-- the place of the section fiber, for each node number up to 16. The generated configuration then
-- has none of the values of that section, the chain among them.
pub fiber_section-replaced :
    (id : ℕ) (v : Value) (scripts : ChainScripts) (url : Text) (template : Fields)
    → id ≤ max_fiber_nodes
    → is_mapping v ≡ false
    → (assert_no_managed_fields (only_fiber v) id ≡ ok tt)
      × (fs : Fields) × (generate_node_config
            (record { id = id; config = only_fiber v })
            scripts
            url
            (obj template)
          ≡ ok fs)
      × (value_at (obj fs) (text "fiber" ∷ []) ≡ some v)
      × (value_at (obj fs) (text "fiber" ∷ text "chain" ∷ []) ≡ none)
unfolding generate_node_config assert_no_managed_fields
fiber_section-replaced id v scripts url template le leaf =
    let base = base_config id scripts url template in
    let there = replaced_lookup base v leaf in
    (
      assert_no_managed_complete managed_config_paths (only_fiber v) id (only_fiber-Lacks v leaf),
      merge_node_config base (only_fiber v),
      rw (node_name_fits id le) refl,
      value_at_found (text "fiber") [] (merge_node_config base (only_fiber v)) v there
          ∙ value_at_end v,
      value_at_found (text "fiber") (text "chain" ∷ []) (merge_node_config base (only_fiber v)) v
            there
          ∙ leaf-value_at v (text "chain") leaf,
    )
