-- ===== src/Fiber/Nodes/Writing.antt =====
-- What `writeNodesYml` leaves to be read.
use offckb.Base.{
  ℕ, zero, suc, ◌<◌, ◌≡◌, refl, ap, true, some, List, [], ◌∷◌, map, eqb_iff, leb, nat_eq, list_eqb,
  length, All, ok, arith, le→leb,
}
use offckb.Base.Text.{Text, text}
use offckb.Value.{integer, pos, num, Fields, lookup, items-of_list}
use offckb.Fiber.Paths.{min_fiber_nodes, max_fiber_nodes}
use offckb.Fiber.Nodes.{
  Yaml, FiberNodeEntry, managed_config_paths, assert_no_managed, assert_no_managed_fields, entry_id,
  entry_of, read_entry, read_entries, check_entries, nodes_list, checked_entries, read_nodes_yml,
  entry_value, nodes_document,
}
use offckb.Fiber.Nodes.Sorting.{IsAscending, IsApartFrom, AreDistinct, sort_entries_sorted}
use offckb.Fiber.Nodes.Reading.{Lacks, IsEntry, AreNodes, IsNew}

-- What the program uses of YAML: a document of nodes that it writes loads as it was.
abbrev pub RoundTrips : Yaml → List FiberNodeEntry → Type 0
RoundTrips y xs = y.load (y.dump (nodes_document xs)) ≡ some (nodes_document xs)

ascending-above : (lo : ℕ) (xs : List FiberNodeEntry) → IsAscending lo xs → All (λ x. lo < x.id) xs
ascending-above lo [] h = tt
ascending-above lo (x ∷ xs) h = (h.0, weaken xs (ascending-above x.id xs h.1))
  where
    weaken : (ys : List FiberNodeEntry) → All (λ y. x.id < y.id) ys → All (λ y. lo < y.id) ys
    weaken [] hs = tt
    weaken (y ∷ ys) hs = (omega (arith, h.0, hs.0), weaken ys hs.1)

above-apart :
    (lo : ℕ) (xs : List FiberNodeEntry) → All (λ x. lo < x.id) xs → All (IsApartFrom lo) xs
above-apart lo [] h = tt
above-apart lo (x ∷ xs) h = (λ e. absurd (omega (arith, e, h.0)), above-apart lo xs h.1)

ascending-AreDistinct : (lo : ℕ) (xs : List FiberNodeEntry) → IsAscending lo xs → AreDistinct xs
ascending-AreDistinct lo [] h = tt
ascending-AreDistinct lo (x ∷ xs) h =
    (above-apart x.id xs (ascending-above x.id xs h.1), ascending-AreDistinct x.id xs h.1)

entry_id-pos : (n : ℕ) → 0 < n → entry_id (some (num (integer (pos n)))) ≡ some n
entry_id-pos zero h = absurd (omega arith)
entry_id-pos (suc n) h = refl

read_entry-entry_value :
    (index : ℕ) (x : FiberNodeEntry) → 0 < x.id → read_entry index (entry_value x) ≡ ok x
unfolding read_entry entry_value lookup text list_eqb
read_entry-entry_value index x h = ap (λ o. entry_of index o (some x.config)) (entry_id-pos x.id h)

read_entries-entry_value :
    (index : ℕ) (xs : List FiberNodeEntry)
    → All (λ x. 0 < x.id) xs
    → read_entries index (map entry_value xs) ≡ ok xs
unfolding read_entries
read_entries-entry_value index [] h = refl
read_entries-entry_value index (x ∷ xs) h =
    rw (read_entry-entry_value index x h.0, read_entries-entry_value (suc index) xs h.1) refl

pub assert_no_managed_complete :
    (paths : List (List Text)) (config : Fields) (id : ℕ)
    → Lacks paths config
    → assert_no_managed paths config id ≡ ok tt
unfolding assert_no_managed
assert_no_managed_complete [] config id h = refl
assert_no_managed_complete (path ∷ paths) config id h =
    rw h.0 (assert_no_managed_complete paths config id h.1)

IsNew-cons :
    (ids : List ℕ) (id : ℕ) (xs : List FiberNodeEntry)
    → All (IsNew ids) xs
    → All (IsApartFrom id) xs
    → All (IsNew (id ∷ ids)) xs
IsNew-cons ids id [] h k = tt
IsNew-cons ids id (x ∷ xs) h k =
    (ground (arith, h.0, k.0, eqb_iff id x.id), IsNew-cons ids id xs h.1 k.1)

check_entries_complete :
    (ids : List ℕ) (xs : List FiberNodeEntry)
    → All (IsNew ids) xs
    → All IsEntry xs
    → AreDistinct xs
    → check_entries ids xs ≡ ok tt
unfolding check_entries assert_no_managed_fields
check_entries_complete ids [] new entries distinct = refl
check_entries_complete ids (x ∷ xs) new entries distinct =
    let small : leb x.id max_fiber_nodes ≡ true = ground (arith, entries.0.0) in
    rw new.0 (
      rw small (
        rw (assert_no_managed_complete managed_config_paths x.config x.id entries.0.1) (
          check_entries_complete (x.id ∷ ids) xs (IsNew-cons ids x.id xs new.1 distinct.0) entries.1
            distinct.1)))

All-IsNew : (xs : List FiberNodeEntry) → All (IsNew []) xs
All-IsNew [] = tt
All-IsNew (x ∷ xs) = (refl, All-IsNew xs)

nodes_list-document :
    (xs : List FiberNodeEntry) → nodes_list (nodes_document xs) ≡ ok (map entry_value xs)
unfolding nodes_document lookup text list_eqb
nodes_list-document xs = ap ok (items-of_list (map entry_value xs))

-- Nodes that are written are read back as they are, in their order.
pub read_nodes_yml-written :
    (y : Yaml) (xs : List FiberNodeEntry)
    → RoundTrips y xs
    → AreNodes xs
    → read_nodes_yml y (y.dump (nodes_document xs)) ≡ ok xs
unfolding read_nodes_yml checked_entries
read_nodes_yml-written y xs h valid =
    let entries = ascending-above 0 xs valid.ascending in
    let lo : leb min_fiber_nodes (length xs) ≡ true = le→leb _ _ valid.some_node in
    let hi : leb (length xs) max_fiber_nodes ≡ true = le→leb _ _ valid.not_too_many in
    rw h (
      rw (nodes_list-document xs) (
        rw (read_entries-entry_value 0 xs entries) (
          rw
            (check_entries_complete [] xs (All-IsNew xs) valid.allowed
              (ascending-AreDistinct 0 xs valid.ascending))
            (rw lo (rw hi (ap ok (sort_entries_sorted 0 xs valid.ascending)))))))
