-- ===== src/Fiber/Nodes/Ensuring.antt =====
-- What `ensureNodesYml` gives and writes.
use mathlib.Core.Path.{subst}
use offckb.Base.{
  ℕ, zero, suc, ◌+◌, ◌<◌, ◌≤◌, ◌≡◌, inl, inr, refl, sym, ap, ◌∙◌, true, ◌&&◌, Option, none, some,
  List, [], ◌∷◌, eqb, eqb_iff, nat_eq, length, get_elem?, Bool-cases, ok, >>=-eq-ok, ok-injective,
  arith,
}
use offckb.Base.Text.{Text}
use offckb.Value.{Number}
use offckb.Fiber.Paths.{min_fiber_nodes, max_fiber_nodes, default_fiber_nodes}
use offckb.Fiber.Nodes.{
  Yaml, FiberNodeEntry, read_nodes_yml, nodes_document, created_nodes, node_by_id, next_nodes,
  are_numbered, written, ensured_count, requested_nodes, validate_node_count, ensure_nodes_yml,
}
use offckb.Fiber.Nodes.Reading.{AreNodes, read_nodes_yml-AreNodes}
use offckb.Fiber.Nodes.Writing.{RoundTrips, read_nodes_yml-written}
use offckb.Fiber.Nodes.Numbering.{
  IsNodeOf, node_by_id-IsNodeOf, next_nodes-length, next_nodes-get_elem?, next_nodes-AreNodes,
  created_nodes-next_nodes, validate_node_count_iff,
}

-- What the file holds in the end.
abbrev after : Option Text → Option Text → Option Text
after old (some t) = some t
after old none = old

abbrev pub ReadsBack : Yaml → Option Text → List FiberNodeEntry × Option Text → Type 0
ReadsBack y old (entries, new) =
    AreNodes entries × (t : Text) × (after old new ≡ some t) × (read_nodes_yml y t ≡ ok entries)

abbrev Keeps : Yaml → Option Text → List FiberNodeEntry × Option Text → Type 0
Keeps y old result = RoundTrips y result.0 → ReadsBack y old result

written-Keeps :
    (y : Yaml) (old : Option Text) (xs : List FiberNodeEntry)
    → AreNodes xs
    → Keeps y old (written y xs)
written-Keeps y old xs valid h =
    (valid, y.dump (nodes_document xs), refl, read_nodes_yml-written y xs h valid)

requested_nodes_sound :
    (requested : Option Number) (n : ℕ)
    → requested_nodes requested ≡ ok n
    → (min_fiber_nodes ≤ n) × (n ≤ max_fiber_nodes)
unfolding requested_nodes
requested_nodes_sound none n h =
    let e = ok-injective default_fiber_nodes n h in (omega (arith, e), omega (arith, e))
requested_nodes_sound (some count) n h =
    let (_, lo, hi) = (validate_node_count_iff count n).0 h in (lo, hi)

kept-Keeps :
    (y : Yaml) (content : Text) (existing : List FiberNodeEntry)
    → read_nodes_yml y content ≡ ok existing
    → Keeps y (some content) (existing, none)
kept-Keeps y content existing reads h =
    ((read_nodes_yml-AreNodes y content existing reads).0, content, refl, reads)

ensured_count-Keeps :
    (y : Yaml) (content : Text) (existing : List FiberNodeEntry) (n : ℕ)
    → read_nodes_yml y content ≡ ok existing
    → min_fiber_nodes ≤ n
    → n ≤ max_fiber_nodes
    → Keeps y (some content) (ensured_count y existing n)
unfolding ensured_count
ensured_count-Keeps y content existing n reads lo hi =
    elim (Bool-cases (eqb n (length existing) && are_numbered 1 existing)) [
      | inl b ↦ rw b (kept-Keeps y content existing reads)
      | inr b ↦
          let entries = (read_nodes_yml-AreNodes y content existing reads).0.allowed in
          rw b (
            written-Keeps y (some content) (next_nodes existing 1 n)
              (next_nodes-AreNodes existing n entries lo hi))
    ]

-- When the nodes of a start are resolved, they are ones that a start can use, and the file, as it
-- was or as it is written, is read as the same nodes in the same order, when YAML loads their
-- document as it was printed.
pub ensure_nodes_yml-ReadsBack :
    (y : Yaml) (requested : Option Number) (old : Option Text)
    (result : List FiberNodeEntry × Option Text)
    → ensure_nodes_yml y requested old ≡ ok result
    → RoundTrips y result.0
    → ReadsBack y old result
unfolding ensure_nodes_yml
ensure_nodes_yml-ReadsBack y requested none result ensures =
    let (n, counts, e) = >>=-eq-ok (requested_nodes requested) _ ensures in
    let (lo, hi) = requested_nodes_sound requested n counts in
    subst (Keeps y none) (ok-injective (written y (created_nodes 1 n)) result e) (
      written-Keeps y none (created_nodes 1 n)
        (subst AreNodes (sym (created_nodes-next_nodes 1 n)) (next_nodes-AreNodes [] n tt lo hi)))
ensure_nodes_yml-ReadsBack y none (some content) result ensures =
    let (existing, reads, e) = >>=-eq-ok (read_nodes_yml y content) _ ensures in
    subst (Keeps y (some content)) (ok-injective (existing, none) result e)
      (kept-Keeps y content existing reads)
ensure_nodes_yml-ReadsBack y (some requested) (some content) result ensures =
    let (existing, reads, e) = >>=-eq-ok (read_nodes_yml y content) _ ensures in
    let (n, counts, e') = >>=-eq-ok (validate_node_count requested) _ e in
    let (_, lo, hi) = (validate_node_count_iff requested n).0 counts in
    subst (Keeps y (some content)) (ok-injective (ensured_count y existing n) result e')
      (ensured_count-Keeps y content existing n reads lo hi)

are_numbered-get_elem? :
    (xs : List FiberNodeEntry) (id i : ℕ)
    → are_numbered id xs ≡ true
    → i < length xs
    → (x : FiberNodeEntry) × (get_elem? xs i ≡ some x) × (x.id ≡ id + i)
unfolding are_numbered
are_numbered-get_elem? [] id i h lt = absurd (omega arith)
are_numbered-get_elem? (x ∷ xs) id zero h lt = (x, refl, ground (arith, h, eqb_iff x.id id))
are_numbered-get_elem? (x ∷ xs) id (suc i) h lt =
    let (y, found, same) =
      are_numbered-get_elem? xs (suc id) i (ground (arith, h)) (omega (arith, lt)) in
    (y, found, omega (arith, same))

-- With a file of nodes and a number of nodes asked for that is between 1 and 16, the nodes are
-- numbered from 1 to that number: each is the one of the file with its number, with its
-- configuration, or, when the file has none, new with an empty configuration.
pub ensured_count_lem :
    (y : Yaml) (existing : List FiberNodeEntry) (n i : ℕ)
    → i < n
    → (length (ensured_count y existing n).0 ≡ n)
      × (x : FiberNodeEntry) × (get_elem? (ensured_count y existing n).0 i ≡ some x)
      × IsNodeOf existing (suc i) x
unfolding ensured_count
ensured_count_lem y existing n i lt =
    elim (Bool-cases (eqb n (length existing) && are_numbered 1 existing)) [
      | inl b ↦
          let long : length existing ≡ n = ground (arith, b) in
          let (x, found, same) =
            are_numbered-get_elem? existing 1 i (ground (arith, b)) (omega (arith, lt, long)) in
          rw b (long, x, found, (omega (arith, same), inl (i, found)))
      | inr b ↦ rw b (
        next_nodes-length existing 1 n,
        node_by_id existing (suc i),
        next_nodes-get_elem? existing 1 n i lt
            ∙ ap (λ k. some (node_by_id existing k)) (omega arith),
        node_by_id-IsNodeOf existing (suc i),
      )
    ]
