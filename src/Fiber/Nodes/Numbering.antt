-- ===== src/Fiber/Nodes/Numbering.antt =====
-- The nodes that are numbered from 1 on, taken over from a list or new.
use mathlib.Core.Option.{some-injective}
use mathlib.Core.Path.{subst}
use offckb.Base.{
  ℕ, zero, suc, ◌+◌, ◌<◌, ◌≤◌, ◌≡◌, ◌↔◌, ◌⊎◌, inl, inr, refl, sym, ap, ◌∙◌, some, List, [], ◌∷◌,
  eqb, eqb_iff, nat_eq, length, get_elem?, All, Bool-cases, ok, arith,
}
use offckb.Value.{Number, integer, pos, end, lookup}
use offckb.Fiber.Paths.{min_fiber_nodes, max_fiber_nodes}
use offckb.Fiber.Nodes.{
  FiberNodeEntry, managed_config_paths, value_at, empty_node, created_nodes, node_by_id, next_nodes,
  validate_node_count,
}
use offckb.Fiber.Nodes.Sorting.{IsAscending, IsApartFrom}
use offckb.Fiber.Nodes.Reading.{Lacks, IsEntry, AreNodes}

-- A node is the one of a list with its number, with its configuration, or new and empty.
abbrev pub IsNodeOf : List FiberNodeEntry → ℕ → FiberNodeEntry → Type 0
IsNodeOf existing id x =
    (x.id ≡ id)
    × (((k : ℕ) × (get_elem? existing k ≡ some x))
        ⊎ (All (IsApartFrom id) existing × (x.config ≡ end)))

pub node_by_id-IsNodeOf :
    (existing : List FiberNodeEntry) (id : ℕ) → IsNodeOf existing id (node_by_id existing id)
unfolding node_by_id
node_by_id-IsNodeOf [] id = (refl, inr (tt, refl))
node_by_id-IsNodeOf (x ∷ xs) id = elim (Bool-cases (eqb x.id id)) [
  | inl b ↦ rw b ((eqb_iff x.id id).0 b, inl (0, refl))
  | inr b ↦
      let (same, from) = node_by_id-IsNodeOf xs id in
      rw b (
        same,
        elim from [
          | inl (k, found) ↦ inl (suc k, found)
          | inr (apart, empty) ↦ inr ((ground (arith, b, eqb_iff x.id id), apart), empty)
        ],
      )
]

get_elem?-All :
    (P : FiberNodeEntry → Type 0) (xs : List FiberNodeEntry) (k : ℕ) (x : FiberNodeEntry)
    → All P xs
    → get_elem? xs k ≡ some x
    → P x
get_elem?-All P [] k x h found = cc
get_elem?-All P (y ∷ ys) zero x h found = subst P (some-injective y x found) h.0
get_elem?-All P (y ∷ ys) (suc k) x h found = get_elem?-All P ys k x h.1 found

empty-Lacks : Lacks managed_config_paths end
unfolding managed_config_paths value_at lookup
empty-Lacks = (refl, (refl, (refl, (refl, (refl, (refl, (refl, (refl, (refl, tt)))))))))

node-IsEntry :
    (existing : List FiberNodeEntry) (id : ℕ) (x : FiberNodeEntry)
    → id ≤ max_fiber_nodes
    → All IsEntry existing
    → IsNodeOf existing id x
    → IsEntry x
node-IsEntry existing id x le h (same, inl (k, found)) = get_elem?-All IsEntry existing k x h found
node-IsEntry existing id x le h (same, inr (apart, empty)) =
    (omega (arith, same, le), subst (Lacks managed_config_paths) (sym empty) empty-Lacks)

next_nodes-allowed :
    (existing : List FiberNodeEntry) (id n : ℕ)
    → id + n ≤ suc max_fiber_nodes
    → All IsEntry existing
    → All IsEntry (next_nodes existing id n)
unfolding next_nodes
next_nodes-allowed existing id zero le h = tt
next_nodes-allowed existing id (suc n) le h = (
  node-IsEntry existing id (node_by_id existing id) (omega (arith, le)) h
      (node_by_id-IsNodeOf existing id),
  next_nodes-allowed existing (suc id) n (omega (arith, le)) h,
)

next_nodes-IsAscending :
    (existing : List FiberNodeEntry) (lo n : ℕ) → IsAscending lo (next_nodes existing (suc lo) n)
unfolding next_nodes
next_nodes-IsAscending existing lo zero = tt
next_nodes-IsAscending existing lo (suc n) =
    let same = (node_by_id-IsNodeOf existing (suc lo)).0 in
    (
      omega (arith, same),
      subst (λ k. IsAscending k (next_nodes existing (suc (suc lo)) n)) (sym same)
          (next_nodes-IsAscending existing (suc lo) n),
    )

pub next_nodes-length :
    (existing : List FiberNodeEntry) (id n : ℕ) → length (next_nodes existing id n) ≡ n
unfolding next_nodes
next_nodes-length existing id zero = refl
next_nodes-length existing id (suc n) = ap suc (next_nodes-length existing (suc id) n)

pub next_nodes-get_elem? :
    (existing : List FiberNodeEntry) (id n i : ℕ)
    → i < n
    → get_elem? (next_nodes existing id n) i ≡ some (node_by_id existing (id + i))
unfolding next_nodes
next_nodes-get_elem? existing id zero i lt = absurd (omega arith)
next_nodes-get_elem? existing id (suc n) zero lt =
    ap (λ k. some (node_by_id existing k)) (omega arith)
next_nodes-get_elem? existing id (suc n) (suc i) lt =
    next_nodes-get_elem? existing (suc id) n i (omega (arith, lt))
    ∙ ap (λ k. some (node_by_id existing k)) (omega arith)

pub next_nodes-AreNodes :
    (existing : List FiberNodeEntry) (n : ℕ)
    → All IsEntry existing
    → min_fiber_nodes ≤ n
    → n ≤ max_fiber_nodes
    → AreNodes (next_nodes existing 1 n)
next_nodes-AreNodes existing n h lo hi = record {
  ascending = next_nodes-IsAscending existing 0 n;
  allowed = next_nodes-allowed existing 1 n (omega (arith, hi)) h;
  some_node = omega (arith, lo, next_nodes-length existing 1 n);
  not_too_many = omega (arith, hi, next_nodes-length existing 1 n);
}

pub created_nodes-next_nodes : (id n : ℕ) → created_nodes id n ≡ next_nodes [] id n
unfolding created_nodes next_nodes node_by_id
created_nodes-next_nodes id zero = refl
created_nodes-next_nodes id (suc n) =
    ap (λ xs. empty_node id ∷ xs) (created_nodes-next_nodes (suc id) n)

pub validate_node_count_iff :
    (count : Number) (n : ℕ)
    → (validate_node_count count ≡ ok n)
      ↔ (count ≡ integer (pos n)) × (min_fiber_nodes ≤ n) × (n ≤ max_fiber_nodes)
unfolding validate_node_count
validate_node_count_iff count n = ground arith
