-- ===== src/ConfigEditor/DocumentEdits/Containers.antt =====
-- Moving an item of an array and deleting an entry.
use mathlib.Core.Path.{subst}
use mathlib.Core.List.{Perm}
use mathlib.Core.List.Perm
use offckb.Base.{
  ℕ, ◌<◌, ◌≡◌, refl, inl, inr, ◌∙◌, sym, ap, Option, none, some, List, [], ◌∷◌, ◌++◌, eqb,
  if◌then◌else◌, ◌==◌, text_eq, length, get_elem?, Bool-cases, ok, guard, >>=-eq-ok, ok-injective,
  ◌⊎◌, arith,
}
use offckb.Base.Text.{Text}
use offckb.Value.{
  pos, Number, integer, Value, arr, obj, Fields, Items, items, of_list, items-of_list, remove,
}
use offckb.Value.Paths.Laws.{lookup-remove}
use offckb.ConfigEditor.{
  Platform, DocumentId, EditError, Editor, bad_source_index, bad_target_index, key_missing,
  bad_delete_index,
}
use offckb.ConfigEditor.DocumentEdits.{
  get_entry_value, replace_at, has_key, array_at, move, remove_at, delete_in, item_index,
  move_array_entry, split_last, delete_document_path,
}
use offckb.ConfigEditor.DocumentEdits.Moves.{move_laws}
use offckb.ConfigEditor.DocumentEdits.Laws.{
  get_entry_value-replace_at, member_of_object, array_at-eq-ok,
}

-- An index that is accepted is a natural number below the size.
item_index-eq-ok :
    (index : Number) (size i : ℕ) (error : EditError)
    → item_index index size error ≡ ok i
    → (index ≡ integer (pos i)) × (i < size)
item_index-eq-ok index size i error h = ground arith

abbrev moved : DocumentId → List Text → List Value → ℕ → ℕ → Editor → Editor
moved id path vs from to e =
    if eqb from to then e else replace_at id path (arr (of_list (move from to vs))) e

-- The steps of a successful `moveArrayEntry`.
move_array_entry-eq-ok :
    (id : DocumentId) (path : List Text) (from_index to_index : Number) (e e' : Editor)
    → move_array_entry id path from_index to_index e ≡ ok e'
    → (xs : Items) × (from to : ℕ) × (get_entry_value id path e ≡ some (arr xs))
      × (from_index ≡ integer (pos from))
      × (to_index ≡ integer (pos to))
      × (from < length (items xs))
      × (to < length (items xs))
      × (moved id path (items xs) from to e ≡ e')
unfolding move_array_entry
move_array_entry-eq-ok id path from_index to_index e e' h =
    let (vs, found, h₁) = >>=-eq-ok (array_at (get_entry_value id path e)) _ h in
    let (from, source, h₂) = >>=-eq-ok (item_index from_index (length vs) bad_source_index) _ h₁ in
    let (to, target, state) = >>=-eq-ok (item_index to_index (length vs) bad_target_index) _ h₂ in
    let (xs, there, same) = array_at-eq-ok (get_entry_value id path e) vs found in
    let (from_eq, hf) = item_index-eq-ok from_index (length vs) from bad_source_index source in
    let (to_eq, ht) = item_index-eq-ok to_index (length vs) to bad_target_index target in
    (
      xs,
      from,
      to,
      there,
      from_eq,
      to_eq,
      subst (λ t. from < length t) (sym same) hf,
      subst (λ t. to < length t) (sym same) ht,
      subst (λ t. moved id path t from to e ≡ e') (sym same) (ok-injective _ _ state),
    )

moved_lem :
    (id : DocumentId) (path : List Text) (xs : Items) (from to : ℕ) (e : Editor)
    → get_entry_value id path e ≡ some (arr xs)
    → from < length (items xs)
    → to < length (items xs)
    → (ys : Items) × (get_entry_value id path (moved id path (items xs) from to e) ≡ some (arr ys))
      × Perm (items ys) (items xs)
      × (get_elem? (items ys) to ≡ get_elem? (items xs) from)
moved_lem id path xs from to e there hf ht = elim (Bool-cases (eqb from to)) [
  | inl same ↦
      let at : from ≡ to = ground arith in
      rw same (xs, there, Perm.refl (items xs), ap (get_elem? (items xs)) (sym at))
  | inr other ↦
      let (perm, found, _) = move_laws from to (items xs) hf ht in
      rw other (
        of_list (move from to (items xs)),
        get_entry_value-replace_at id path (arr xs) _ e there,
        subst (λ t. Perm t (items xs)) (sym (items-of_list (move from to (items xs)))) perm,
        ap (λ t. get_elem? t to) (items-of_list (move from to (items xs))) ∙ found,
      )
]

-- When an item of an array is moved, both indices are in the array, the array keeps its items, each as
-- often, and the item stands at its new index.
pub move_array_entry_lem :
    (id : DocumentId) (path : List Text) (from_index to_index : Number) (e e' : Editor)
    → move_array_entry id path from_index to_index e ≡ ok e'
    → (xs ys : Items) × (from to : ℕ) × (get_entry_value id path e ≡ some (arr xs))
      × (get_entry_value id path e' ≡ some (arr ys))
      × (from_index ≡ integer (pos from))
      × (to_index ≡ integer (pos to))
      × Perm (items ys) (items xs)
      × (get_elem? (items ys) to ≡ get_elem? (items xs) from)
move_array_entry_lem id path from_index to_index e e' h =
    let (xs, from, to, there, from_eq, to_eq, hf, ht, state) =
      move_array_entry-eq-ok id path from_index to_index e e' h in
    let (ys, after, perm, found) = moved_lem id path xs from to e there hf ht in
    (
      xs,
      ys,
      from,
      to,
      there,
      subst (λ x. get_entry_value id path x ≡ some (arr ys)) state after,
      from_eq,
      to_eq,
      perm,
      found,
    )

-- What `deleteDocumentPath` does to the parent of the entry.
abbrev pub IsDeleted : Platform → DocumentId → List Text → Text → Editor → Editor → Type 0
IsDeleted p id parent key e e' =
    ((fs : Fields) × (get_entry_value id parent e ≡ some (obj fs))
      × ((j : Text)
          → get_entry_value id (parent ++ j ∷ []) e'
            ≡ (if key == j then none else get_entry_value id (parent ++ j ∷ []) e)))
    ⊎ ((xs ys : Items) × (i : ℕ) × (get_entry_value id parent e ≡ some (arr xs))
        × (p.to_number key ≡ integer (pos i))
        × (i < length (items xs))
        × (get_entry_value id parent e' ≡ some (arr ys))
        × (items ys ≡ remove_at i (items xs)))

delete_from_object :
    (p : Platform) (id : DocumentId) (parent : List Text) (key : Text) (fs : Fields) (e : Editor)
    → get_entry_value id parent e ≡ some (obj fs)
    → IsDeleted p id parent key e (replace_at id parent (obj (remove key fs)) e)
delete_from_object p id parent key fs e h = inl (
  fs,
  h,
  λ j.
      member_of_object id parent j (remove key fs) _
        (get_entry_value-replace_at id parent (obj fs) (obj (remove key fs)) e h)
      ∙ lookup-remove j key fs
      ∙ ap (λ o. if key == j then none else o) (sym (member_of_object id parent j fs e h)),
)

delete_from_array :
    (p : Platform) (id : DocumentId) (parent : List Text) (key : Text) (xs : Items) (i : ℕ)
    (e : Editor)
    → get_entry_value id parent e ≡ some (arr xs)
    → (p.to_number key ≡ integer (pos i)) × (i < length (items xs))
    → IsDeleted p id parent key e (replace_at id parent (arr (of_list (remove_at i (items xs)))) e)
delete_from_array p id parent key xs i e h (index, lt) = inr (
  xs,
  of_list (remove_at i (items xs)),
  i,
  h,
  index,
  lt,
  get_entry_value-replace_at id parent (arr xs) _ e h,
  items-of_list (remove_at i (items xs)),
)

-- The parent path and the key make up the path.
split_last-append :
    (k : Text) (ks : List Text) → (split_last k ks).0 ++ (split_last k ks).1 ∷ [] ≡ k ∷ ks
unfolding split_last
split_last-append k [] = refl
split_last-append k (j ∷ ks) = ap (λ t. k ∷ t) (split_last-append j ks)

delete_cases :
    (p : Platform) (id : DocumentId) (parent : List Text) (key : Text) (o : Option Value)
    (e e' : Editor)
    → get_entry_value id parent e ≡ o
    → delete_in p id parent key o e ≡ ok e'
    → IsDeleted p id parent key e e'
unfolding delete_in
delete_cases p id parent key (some (obj fs)) e e' found h =
    let (_, _, state) = >>=-eq-ok (guard (has_key key fs) (key_missing key)) _ h in
    subst (IsDeleted p id parent key e) (ok-injective _ _ state)
      (delete_from_object p id parent key fs e found)
delete_cases p id parent key (some (arr xs)) e e' found h =
    let (i, index, state) =
      >>=-eq-ok (item_index (p.to_number key) (length (items xs)) bad_delete_index) _ h in
    subst (IsDeleted p id parent key e) (ok-injective _ _ state)
      (delete_from_array p id parent key xs i e found (item_index-eq-ok _ _ i _ index))
delete_cases p id parent key o e e' found h = cc

-- When an entry is deleted, its parent is an object that loses the key and keeps the other entries, or
-- an array that loses the item at the index that the key reads as, with the others in their order.
pub delete_document_path_lem :
    (p : Platform) (id : DocumentId) (k : Text) (ks : List Text) (e e' : Editor)
    → delete_document_path p id (k ∷ ks) e ≡ ok e'
    → (parent : List Text) × (key : Text) × (parent ++ key ∷ [] ≡ k ∷ ks)
      × IsDeleted p id parent key e e'
unfolding delete_document_path
delete_document_path_lem p id k ks e e' h = (
  (split_last k ks).0,
  (split_last k ks).1,
  split_last-append k ks,
  delete_cases p id (split_last k ks).0 (split_last k ks).1
      (get_entry_value id (split_last k ks).0 e) e e' refl h,
)
