-- ===== src/Fiber/Nodes/Sorting.antt =====
-- The order in which the nodes of nodes.yml are started.
use mathlib.Core.List.{Perm}
use mathlib.Core.List.Perm
use offckb.Base.{
  ℕ, suc, ◌<◌, ◌≡◌, ◌≢◌, refl, ap, ◌∙◌, inl, inr, List, [], ◌∷◌, leb, length, All, Bool-cases,
  arith,
}
use offckb.Fiber.Nodes.{FiberNodeEntry, insert_entry, sort_entries}

-- The numbers of the nodes rise, from above `lo` on.
abbrev pub IsAscending : ℕ → List FiberNodeEntry → Type 0
IsAscending lo [] = Unit
IsAscending lo (x ∷ xs) = (lo < x.id) × IsAscending x.id xs

abbrev pub IsApartFrom : ℕ → FiberNodeEntry → Type 0
IsApartFrom id x = x.id ≢ id

abbrev pub AreDistinct : List FiberNodeEntry → Type 0
AreDistinct [] = Unit
AreDistinct (x ∷ xs) = All (IsApartFrom x.id) xs × AreDistinct xs

insert_entry-All :
    (P : FiberNodeEntry → Type 0) (x : FiberNodeEntry) (xs : List FiberNodeEntry)
    → P x
    → All P xs
    → All P (insert_entry x xs)
unfolding insert_entry
insert_entry-All P x [] h hs = (h, tt)
insert_entry-All P x (y ∷ ys) h hs = elim (Bool-cases (leb x.id y.id)) [
  | inl b ↦ rw b (h, hs)
  | inr b ↦ rw b (hs.0, insert_entry-All P x ys h hs.1)
]

pub sort_entries-All :
    (P : FiberNodeEntry → Type 0) (xs : List FiberNodeEntry) → All P xs → All P (sort_entries xs)
unfolding sort_entries
sort_entries-All P [] hs = tt
sort_entries-All P (x ∷ xs) hs =
    insert_entry-All P x (sort_entries xs) hs.0 (sort_entries-All P xs hs.1)

insert_entry-IsAscending :
    (lo : ℕ) (x : FiberNodeEntry) (xs : List FiberNodeEntry)
    → lo < x.id
    → All (IsApartFrom x.id) xs
    → IsAscending lo xs
    → IsAscending lo (insert_entry x xs)
unfolding insert_entry
insert_entry-IsAscending lo x [] h apart asc = (h, tt)
insert_entry-IsAscending lo x (y ∷ ys) h apart asc = elim (Bool-cases (leb x.id y.id)) [
  | inl b ↦ rw b (h, (ground (arith, b, apart.0), asc.1))
  | inr b ↦ rw b (asc.0, insert_entry-IsAscending y.id x ys (ground (arith, b)) apart.1 asc.1)
]

pub sort_entries-IsAscending :
    (xs : List FiberNodeEntry)
    → All (λ x. 0 < x.id) xs
    → AreDistinct xs
    → IsAscending 0 (sort_entries xs)
unfolding sort_entries
sort_entries-IsAscending [] ps ds = tt
sort_entries-IsAscending (x ∷ xs) ps ds =
    insert_entry-IsAscending 0 x (sort_entries xs) ps.0
      (sort_entries-All (IsApartFrom x.id) xs ds.0) (sort_entries-IsAscending xs ps.1 ds.1)

insert_entry-perm :
    (x : FiberNodeEntry) (xs : List FiberNodeEntry) → Perm (insert_entry x xs) (x ∷ xs)
unfolding insert_entry
insert_entry-perm x [] = Perm.refl (x ∷ [])
insert_entry-perm x (y ∷ ys) = elim (Bool-cases (leb x.id y.id)) [
  | inl b ↦ rw b (Perm.refl (x ∷ y ∷ ys))
  | inr b ↦ rw b (Perm.trans (Perm.cons y (insert_entry-perm x ys)) (Perm.swap x y ys))
]

pub sort_entries-perm : (xs : List FiberNodeEntry) → Perm (sort_entries xs) xs
unfolding sort_entries
sort_entries-perm [] = Perm.refl []
sort_entries-perm (x ∷ xs) =
    Perm.trans (insert_entry-perm x (sort_entries xs)) (Perm.cons x (sort_entries-perm xs))

insert_entry-length :
    (x : FiberNodeEntry) (xs : List FiberNodeEntry) → length (insert_entry x xs) ≡ suc (length xs)
unfolding insert_entry
insert_entry-length x [] = refl
insert_entry-length x (y ∷ ys) = elim (Bool-cases (leb x.id y.id)) [
  | inl b ↦ rw b refl
  | inr b ↦ rw b (ap suc (insert_entry-length x ys))
]

pub sort_entries-length : (xs : List FiberNodeEntry) → length (sort_entries xs) ≡ length xs
unfolding sort_entries
sort_entries-length [] = refl
sort_entries-length (x ∷ xs) =
    insert_entry-length x (sort_entries xs) ∙ ap suc (sort_entries-length xs)

-- A list that rises is sorted already.
insert_entry_first :
    (x : FiberNodeEntry) (xs : List FiberNodeEntry)
    → IsAscending x.id xs
    → insert_entry x xs ≡ x ∷ xs
unfolding insert_entry
insert_entry_first x [] asc = refl
insert_entry_first x (y ∷ ys) asc = ground (arith, asc.0)

pub sort_entries_sorted :
    (lo : ℕ) (xs : List FiberNodeEntry) → IsAscending lo xs → sort_entries xs ≡ xs
unfolding sort_entries
sort_entries_sorted lo [] asc = refl
sort_entries_sorted lo (x ∷ xs) asc =
    ap (insert_entry x) (sort_entries_sorted x.id xs asc.1) ∙ insert_entry_first x xs asc.1
