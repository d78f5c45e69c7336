-- ===== src/Fiber/Nodes/Reading.antt =====
-- What `readNodesYml` accepts, and what it gives.
use mathlib.Core.List.{Perm}
use mathlib.Core.Path.{subst}
use offckb.Base.{
  ℕ, suc, ◌<◌, ◌≤◌, ◌≡◌, inl, inr, false, not, Option, none, some, List, [], ◌∷◌, eqb_iff, leb,
  nat_eq, length, All, Option-cases, ok, guard, >>=-eq-ok, guard-eq-ok, ok-injective, arith,
}
use offckb.Base.Text.{Text}
use offckb.Value.{Value, obj, Fields}
use offckb.Fiber.Paths.{min_fiber_nodes, max_fiber_nodes}
use offckb.Fiber.Nodes.{
  Yaml, FiberNodeEntry, managed_config_paths, value_at, assert_no_managed, assert_no_managed_fields,
  duplicate_id, id_exceeds_maximum, too_few, too_many, read_entry, read_entries, has_id,
  check_entries, sort_entries, nodes_list, checked_entries, parsed_yaml, read_nodes_yml,
}
use offckb.Fiber.Nodes.Sorting.{
  IsAscending, IsApartFrom, AreDistinct, sort_entries-All, sort_entries-IsAscending,
  sort_entries-perm, sort_entries-length,
}

-- No path of a list leads to a value of a configuration.
abbrev pub Lacks : List (List Text) → Fields → Type 0
Lacks paths config = All (λ path. value_at (obj config) path ≡ none) paths

abbrev pub IsEntry : FiberNodeEntry → Type 0
IsEntry entry = (entry.id ≤ max_fiber_nodes) × Lacks managed_config_paths entry.config

-- The nodes that a start can use.
pub record AreNodes (entries : List FiberNodeEntry) : Type 0 where
  pub ascending : IsAscending 0 entries
  pub allowed : All IsEntry entries
  pub some_node : min_fiber_nodes ≤ length entries
  pub not_too_many : length entries ≤ max_fiber_nodes

assert_no_managed_sound :
    (paths : List (List Text)) (config : Fields) (id : ℕ)
    → assert_no_managed paths config id ≡ ok tt
    → Lacks paths config
unfolding assert_no_managed
assert_no_managed_sound [] config id h = tt
assert_no_managed_sound (path ∷ paths) config id h =
    elim (Option-cases (value_at (obj config) path)) [
      | inl missing ↦
          (missing, assert_no_managed_sound paths config id (ground (arith, missing, h)))
      | inr (v, found) ↦ absurd (ground (arith, found, h))
    ]

read_entry_sound :
    (index : ℕ) (v : Value) (entry : FiberNodeEntry) → read_entry index v ≡ ok entry → 0 < entry.id
unfolding read_entry
read_entry_sound index v entry h = ground arith

read_entries_sound :
    (index : ℕ) (vs : List Value) (entries : List FiberNodeEntry)
    → read_entries index vs ≡ ok entries
    → All (λ x. 0 < x.id) entries
unfolding read_entries
read_entries_sound index [] entries h = subst (All (λ x. 0 < x.id)) (ok-injective [] entries h) tt
read_entries_sound index (v ∷ vs) entries h =
    let (x, first, h') = >>=-eq-ok (read_entry index v) _ h in
    let (xs, rest, h'') = >>=-eq-ok (read_entries (suc index) vs) _ h' in
    subst (All (λ x. 0 < x.id)) (ok-injective (x ∷ xs) entries h'')
      (read_entry_sound index v x first, read_entries_sound (suc index) vs xs rest)

-- The entries that pass the loop are new to the numbers seen, and differ from each other.
abbrev pub IsNew : List ℕ → FiberNodeEntry → Type 0
IsNew ids entry = has_id ids entry.id ≡ false

-- The numbers that the rest is new to include the one just seen.
IsNew-cons :
    (ids : List ℕ) (id : ℕ) (entries : List FiberNodeEntry)
    → All (IsNew (id ∷ ids)) entries
    → All (IsNew ids) entries × All (IsApartFrom id) entries
IsNew-cons ids id [] h = (tt, tt)
IsNew-cons ids id (x ∷ xs) h =
    let (new, apart) = IsNew-cons ids id xs h.1 in
    ((ground (arith, h.0), new), (ground (arith, h.0, eqb_iff id x.id), apart))

check_entries_sound :
    (ids : List ℕ) (entries : List FiberNodeEntry)
    → check_entries ids entries ≡ ok tt
    → All (IsNew ids) entries × All IsEntry entries × AreDistinct entries
unfolding check_entries assert_no_managed_fields
check_entries_sound ids [] h = (tt, tt, tt)
check_entries_sound ids (x ∷ xs) h0 =
    let (_, new, h1) = >>=-eq-ok (guard (not (has_id ids x.id)) (duplicate_id x.id)) _ h0 in
    let (_, small, h2) =
      >>=-eq-ok (guard (leb x.id max_fiber_nodes) (id_exceeds_maximum x.id)) _ h1 in
    let (_, free, rest) = >>=-eq-ok (assert_no_managed_fields x.config x.id) _ h2 in
    let (news, entries, distinct) = check_entries_sound (x.id ∷ ids) xs rest in
    let (old, apart) = IsNew-cons ids x.id xs news in
    (
      (ground (arith, guard-eq-ok _ _ new), old),
      (
        (
          ground (arith, guard-eq-ok _ _ small),
          assert_no_managed_sound managed_config_paths x.config x.id free,
        ),
        entries,
      ),
      (apart, distinct),
    )

parsed_yaml-ok : (o : Option Value) (v : Value) → parsed_yaml o ≡ ok v → o ≡ some v
parsed_yaml-ok o v h = ground arith

checked_entries_sound :
    (vs : List Value) (entries : List FiberNodeEntry)
    → checked_entries vs ≡ ok entries
    → AreNodes entries
      × (found : List FiberNodeEntry) × (read_entries 0 vs ≡ ok found)
      × Perm entries found
unfolding checked_entries
checked_entries_sound vs entries h0 =
    let (found, reads, h1) = >>=-eq-ok (read_entries 0 vs) _ h0 in
    let (_, checks, h2) = >>=-eq-ok (check_entries [] found) _ h1 in
    let (_, some_node, h3) = >>=-eq-ok (guard (leb min_fiber_nodes (length found)) too_few) _ h2 in
    let (_, not_too_many, h4) =
      >>=-eq-ok (guard (leb (length found) max_fiber_nodes) too_many) _ h3 in
    let (_, allowed, distinct) = check_entries_sound [] found checks in
    subst (λ t. AreNodes t × (xs : List FiberNodeEntry) × (read_entries 0 vs ≡ ok xs) × Perm t xs)
      (ok-injective (sort_entries found) entries h4)
      (
        record {
          ascending = sort_entries-IsAscending found (read_entries_sound 0 vs found reads) distinct;
          allowed = sort_entries-All IsEntry found allowed;
          some_node = ground (arith, guard-eq-ok _ _ some_node, sort_entries-length found);
          not_too_many = ground (arith, guard-eq-ok _ _ not_too_many, sort_entries-length found);
        },
        found,
        reads,
        sort_entries-perm found,
      )

-- A file that is read gives one to sixteen nodes, in the order of their numbers, which are between
-- 1 and 16 and differ, with no value at a path that the program manages. They are the entries of
-- the `nodes` list of the document, each once.
pub read_nodes_yml-AreNodes :
    (y : Yaml) (content : Text) (entries : List FiberNodeEntry)
    → read_nodes_yml y content ≡ ok entries
    → AreNodes entries
      × (v : Value) × (vs : List Value) × (found : List FiberNodeEntry) × (y.load content ≡ some v)
      × (nodes_list v ≡ ok vs)
      × (read_entries 0 vs ≡ ok found)
      × Perm entries found
unfolding read_nodes_yml
read_nodes_yml-AreNodes y content entries h0 =
    let (v, loads, h1) = >>=-eq-ok (parsed_yaml (y.load content)) _ h0 in
    let (vs, lists, h2) = >>=-eq-ok (nodes_list v) _ h1 in
    let (valid, found, reads, same) = checked_entries_sound vs entries h2 in
    (valid, v, vs, found, parsed_yaml-ok (y.load content) v loads, lists, reads, same)
