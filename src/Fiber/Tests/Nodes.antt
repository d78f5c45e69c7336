-- ===== src/Fiber/Tests/Nodes.antt =====
-- Small lists of nodes, and the configuration of one.
use mathlib.Core.List.{Perm}
use offckb.Base.{◌≡◌, inl, inr, refl, Option, none, some, List, [], ◌∷◌, All, list_eqb, ok, arith}
use offckb.Base.Text.{Text, text}
use offckb.Value.{
  Value, null, str, arr, obj, nil, pos, integer, Fields, end, field, lookup, items, of_list,
}
use offckb.Fiber.Nodes.{
  Yaml, FiberNodeEntry, nodes_document, entry_value, nodes_list, read_entries, read_entry,
  read_nodes_yml, checked_entries, check_entries, assert_no_managed_fields, assert_no_managed,
  managed_config_paths, value_at, sort_entries, insert_entry, next_nodes, node_by_id, ensured_count,
  are_numbered, ensure_nodes_yml, validate_node_count,
}
use offckb.Fiber.Nodes.Reading.{AreNodes, Lacks, read_nodes_yml-AreNodes}
use offckb.Fiber.Nodes.Writing.{RoundTrips}
use offckb.Fiber.Nodes.Ensuring.{ReadsBack, ensure_nodes_yml-ReadsBack}
use offckb.Fiber.NodeConfig.{ChainScripts, generate_node_config}
use offckb.Fiber.NodeConfig.Merging.{HasKeysOnce, LeavesOpen}
use offckb.Fiber.NodeConfig.Managed.{
  HasManaged, only_fiber, generate_node_config-HasManaged, fiber_section-replaced,
}

-- A configuration of node 3 that turns a setting of the section fiber.
abbrev small_config : Fields
small_config = field (text "fiber") (obj (field (text "extra") (str (text "on")) end)) end

abbrev three : FiberNodeEntry
three = record { id = 3; config = small_config }

abbrev small_scripts : ChainScripts
small_scripts = record { fiber_scripts = arr nil; udt_whitelist = arr nil }

small_config-Lacks : Lacks managed_config_paths small_config
unfolding managed_config_paths value_at lookup text list_eqb
small_config-Lacks = (refl, (refl, (refl, (refl, (refl, (refl, (refl, (refl, (refl, tt)))))))))

small_config-HasKeysOnce : HasKeysOnce small_config
unfolding HasKeysOnce lookup
small_config-HasKeysOnce = ground arith

small_config-LeavesOpen : All (LeavesOpen small_config) managed_config_paths
unfolding LeavesOpen managed_config_paths lookup text list_eqb
small_config-LeavesOpen =
    let through = inr (field (text "extra") (str (text "on")) end, refl, tt) in
    (
      through,
      (through, (through, (through, (through, (inl refl, (inl refl, (inl refl, (tt, tt)))))))),
    )

generate_node_config-HasManaged_example :
    (fs : Fields) × (generate_node_config three small_scripts (text "u") (obj end) ≡ ok fs)
    × HasManaged 3 small_scripts (text "u") end fs
generate_node_config-HasManaged_example =
    generate_node_config-HasManaged three small_scripts (text "u") end
      (omega arith, small_config-Lacks) small_config-HasKeysOnce small_config-LeavesOpen

fiber_section-replaced_example :
    (assert_no_managed_fields (only_fiber null) 3 ≡ ok tt)
    × (fs : Fields) × (generate_node_config
          (record { id = 3; config = only_fiber null })
          small_scripts
          (text "u")
          (obj end)
        ≡ ok fs)
    × (value_at (obj fs) (text "fiber" ∷ []) ≡ some null)
    × (value_at (obj fs) (text "fiber" ∷ text "chain" ∷ []) ≡ none)
fiber_section-replaced_example =
    fiber_section-replaced 3 null small_scripts (text "u") end (omega arith) refl

-- A file with the nodes 3 and 1, and a start with two nodes.
abbrev one : FiberNodeEntry
one = record { id = 1; config = end }

abbrev one_and_two : List FiberNodeEntry
one_and_two = one ∷ record { id = 2; config = end } ∷ []

abbrev small_load : Text → Option Value
small_load [] = some (nodes_document (three ∷ one ∷ []))
small_load (_ ∷ _) = some (nodes_document one_and_two)

abbrev small_yaml : Yaml
small_yaml = record { load = small_load; dump = λ _. text "nodes" }

reads_small : read_nodes_yml small_yaml [] ≡ ok (one ∷ three ∷ [])
unfolding read_nodes_yml nodes_document entry_value items of_list lookup text list_eqb
    checked_entries read_entries read_entry check_entries assert_no_managed_fields assert_no_managed
    managed_config_paths value_at sort_entries insert_entry
reads_small = refl

read_nodes_yml-AreNodes_example :
    AreNodes (one ∷ three ∷ [])
    × (v : Value) × (vs : List Value) × (found : List FiberNodeEntry) × (small_load [] ≡ some v)
    × (nodes_list v ≡ ok vs)
    × (read_entries 0 vs ≡ ok found)
    × Perm (one ∷ three ∷ []) found
read_nodes_yml-AreNodes_example =
    read_nodes_yml-AreNodes small_yaml [] (one ∷ three ∷ []) reads_small

ensures_small :
    ensure_nodes_yml small_yaml (some (integer (pos 2))) (some [])
    ≡ ok (one_and_two, some (text "nodes"))
unfolding ensure_nodes_yml validate_node_count ensured_count are_numbered next_nodes node_by_id
    read_nodes_yml nodes_document entry_value items of_list lookup text list_eqb checked_entries
    read_entries read_entry check_entries assert_no_managed_fields assert_no_managed
    managed_config_paths value_at sort_entries insert_entry
ensures_small = refl

small_yaml-RoundTrips : RoundTrips small_yaml one_and_two
unfolding text
small_yaml-RoundTrips = refl

ensure_nodes_yml-ReadsBack_example :
    ReadsBack small_yaml (some []) (one_and_two, some (text "nodes"))
ensure_nodes_yml-ReadsBack_example =
    ensure_nodes_yml-ReadsBack small_yaml (some (integer (pos 2))) (some [])
      (one_and_two, some (text "nodes")) ensures_small small_yaml-RoundTrips
