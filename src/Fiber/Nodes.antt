-- ===== src/Fiber/Nodes.antt =====
-- src/fiber/nodes-yml.ts. The library js-yaml reads and prints the file.
pub mod Sorting
pub mod Reading
pub mod Writing
pub mod Numbering
pub mod Ensuring
use offckb.Base.{
  ℕ, zero, suc, ◌+◌, Bool, true, false, ◌&&◌, ◌||◌, not, Option, none, some, List, [], ◌∷◌, map,
  any, if◌then◌else◌, eqb, ltb, leb, ◌==◌, nat_eq, length, filter, Result, ok, err, ◌>>=◌, ◌>>◌,
  guard,
}
use offckb.Base.Text.{Text, text, join}
use offckb.Value.{
  pos, Number, integer, Value, null, num, arr, obj, Items, nil, cons, Fields, end, field, lookup,
  items, of_list,
}
use offckb.Fiber.Paths.{min_fiber_nodes, max_fiber_nodes, default_fiber_nodes}

-- `yaml.load`, or the exception, and `yaml.dump`.
pub record Yaml : Type 0 where
  pub load : Text → Option Value
  pub dump : Value → Text

pub record FiberNodeEntry : Type 0 where
  pub id : ℕ
  pub config : Fields

pub data NodesError : Type 0 where
  bad_count : Number → NodesError
  parse_failed no_nodes_list : NodesError
  bad_id bad_config : ℕ → NodesError
  duplicate_id id_exceeds_maximum : ℕ → NodesError
  managed_field : ℕ → Text → NodesError
  too_few too_many : NodesError

unfoldable pub managed_config_paths : List (List Text)
managed_config_paths =
    (text "fiber" ∷ text "chain" ∷ [])
    ∷ (text "fiber" ∷ text "scripts" ∷ [])
    ∷ (text "fiber" ∷ text "listening_addr" ∷ [])
    ∷ (text "fiber" ∷ text "bootnode_addrs" ∷ [])
    ∷ (text "fiber" ∷ text "store_path" ∷ [])
    ∷ (text "rpc" ∷ text "listening_addr" ∷ [])
    ∷ (text "ckb" ∷ text "rpc_url" ∷ [])
    ∷ (text "ckb" ∷ text "udt_whitelist" ∷ [])
    ∷ (text "services" ∷ [])
    ∷ []

unfoldable pub validate_node_count : Number → Result NodesError ℕ
validate_node_count (integer (pos n)) =
    if ltb n min_fiber_nodes || ltb max_fiber_nodes n
    then err (bad_count (integer (pos n)))
    else ok n
validate_node_count count = err (bad_count count)

-- The inner loop of `assertNoManagedFields`: `none` is `undefined`.
unfoldable pub value_at : Value → List Text → Option Value
value_at v [] = some v
value_at (obj fs) (k ∷ ks) = elim (lookup k fs) [ none ↦ none | some w ↦ value_at w ks ]
value_at _ (_ ∷ _) = none

abbrev pub is_some {ℓ} : {A : Type ℓ} → Option A → Bool
is_some none = false
is_some (some _) = true

unfoldable pub assert_no_managed : List (List Text) → Fields → ℕ → Result NodesError (Unit {0})
assert_no_managed [] config node_id = ok tt
assert_no_managed (path ∷ paths) config node_id =
    guard (not (is_some (value_at (obj config) path)))
      (managed_field node_id (join (text ".") path))
    >> assert_no_managed paths config node_id

unfoldable pub assert_no_managed_fields : Fields → ℕ → Result NodesError (Unit {0})
assert_no_managed_fields = assert_no_managed managed_config_paths

abbrev pub entry_id : Option Value → Option ℕ
entry_id (some (num (integer (pos (suc n))))) = some (suc n)
entry_id _ = none

abbrev pub entry_config : Option Value → Option Fields
entry_config none = some end
entry_config (some null) = some end
entry_config (some (obj fs)) = some fs
entry_config (some _) = none

abbrev pub entry_of : ℕ → Option ℕ → Option Fields → Result NodesError FiberNodeEntry
entry_of index none config = err (bad_id index)
entry_of index (some id) none = err (bad_config index)
entry_of index (some id) (some config) = ok (record { id = id; config = config })

-- `parsed.nodes.map(...)`
unfoldable pub read_entry : ℕ → Value → Result NodesError FiberNodeEntry
read_entry index (obj fs) =
    entry_of index (entry_id (lookup (text "id") fs)) (entry_config (lookup (text "config") fs))
read_entry index _ = err (bad_id index)

unfoldable pub read_entries : ℕ → List Value → Result NodesError (List FiberNodeEntry)
read_entries index [] = ok []
read_entries index (v ∷ vs) = do
  entry ← read_entry index v
  entries ← read_entries (suc index) vs
  ok (entry ∷ entries)

abbrev pub has_id : List ℕ → ℕ → Bool
has_id ids id = any (λ i. i == id) ids

-- The loop over the entries, with the set `ids`.
unfoldable pub check_entries : List ℕ → List FiberNodeEntry → Result NodesError (Unit {0})
check_entries ids [] = ok tt
check_entries ids (entry ∷ entries) = do
  guard (not (has_id ids entry.id)) (duplicate_id entry.id)
  guard (leb entry.id max_fiber_nodes) (id_exceeds_maximum entry.id)
  assert_no_managed_fields entry.config entry.id
  check_entries (entry.id ∷ ids) entries

-- `entries.sort((a, b) => a.id - b.id)`, which is stable.
unfoldable pub insert_entry : FiberNodeEntry → List FiberNodeEntry → List FiberNodeEntry
insert_entry x [] = x ∷ []
insert_entry x (y ∷ ys) = if leb x.id y.id then x ∷ y ∷ ys else y ∷ insert_entry x ys

unfoldable pub sort_entries : List FiberNodeEntry → List FiberNodeEntry
unfolding insert_entry
sort_entries [] = []
sort_entries (x ∷ xs) = insert_entry x (sort_entries xs)

abbrev pub nodes_list : Value → Result NodesError (List Value)
nodes_list (obj fs) = elim (lookup (text "nodes") fs) [
  | some (arr vs) ↦ ok (items vs)
  | _ ↦ err no_nodes_list
]
nodes_list _ = err no_nodes_list

unfoldable pub checked_entries : List Value → Result NodesError (List FiberNodeEntry)
checked_entries vs = do
  entries ← read_entries 0 vs
  check_entries [] entries
  guard (leb min_fiber_nodes (length entries)) too_few
  guard (leb (length entries) max_fiber_nodes) too_many
  ok (sort_entries entries)

abbrev pub parsed_yaml : Option Value → Result NodesError Value
parsed_yaml none = err parse_failed
parsed_yaml (some v) = ok v

-- `readNodesYml()` on a file that is there.
unfoldable pub read_nodes_yml : Yaml → Text → Result NodesError (List FiberNodeEntry)
read_nodes_yml y content = do
  parsed ← parsed_yaml (y.load content)
  vs ← nodes_list parsed
  checked_entries vs

-- The document of `writeNodesYml`.
unfoldable pub entry_value : FiberNodeEntry → Value
entry_value entry = obj (
    field (text "id") (num (integer (pos entry.id))) (field (text "config") (obj entry.config) end))

unfoldable pub nodes_document : List FiberNodeEntry → Value
nodes_document entries = obj (field (text "nodes") (arr (of_list (map entry_value entries))) end)

abbrev pub empty_node : ℕ → FiberNodeEntry
empty_node id = record { id = id; config = end }

unfoldable pub created_nodes : ℕ → ℕ → List FiberNodeEntry
created_nodes id zero = []
created_nodes id (suc n) = empty_node id ∷ created_nodes (suc id) n

-- `byId.get(id) ?? { id, config: {} }`
unfoldable pub node_by_id : List FiberNodeEntry → ℕ → FiberNodeEntry
node_by_id [] id = empty_node id
node_by_id (entry ∷ entries) id = if entry.id == id then entry else node_by_id entries id

unfoldable pub next_nodes : List FiberNodeEntry → ℕ → ℕ → List FiberNodeEntry
next_nodes existing id zero = []
next_nodes existing id (suc n) = node_by_id existing id ∷ next_nodes existing (suc id) n

-- `existing.every((entry, i) => entry.id === i + 1)`, from `id` on.
unfoldable pub are_numbered : ℕ → List FiberNodeEntry → Bool
are_numbered id [] = true
are_numbered id (entry ∷ entries) = entry.id == id && are_numbered (suc id) entries

-- The nodes of this start, and the text that is written, if one is.
abbrev pub written : Yaml → List FiberNodeEntry → List FiberNodeEntry × Option Text
written y entries = (entries, some (y.dump (nodes_document entries)))

unfoldable pub ensured_count : Yaml → List FiberNodeEntry → ℕ → List FiberNodeEntry × Option Text
ensured_count y existing count =
    if eqb count (length existing) && are_numbered 1 existing
    then (existing, none)
    else written y (next_nodes existing 1 count)

unfoldable pub requested_nodes : Option Number → Result NodesError ℕ
requested_nodes none = ok default_fiber_nodes
requested_nodes (some count) = validate_node_count count

unfoldable pub ensure_nodes_yml :
    Yaml → Option Number → Option Text → Result NodesError (List FiberNodeEntry × Option Text)
ensure_nodes_yml y requested none = do
  count ← requested_nodes requested
  ok (written y (created_nodes 1 count))
ensure_nodes_yml y none (some content) = do existing ← read_nodes_yml y content; ok (existing, none)
ensure_nodes_yml y (some requested) (some content) = do
  existing ← read_nodes_yml y content
  count ← validate_node_count requested
  ok (ensured_count y existing count)
