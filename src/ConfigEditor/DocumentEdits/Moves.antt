-- ===== src/ConfigEditor/DocumentEdits/Moves.antt =====
-- Moving an item of an array.
use mathlib.Core.Path.{subst}
use mathlib.Core.Option.{some-injective}
use mathlib.Core.List.{Perm, perm_middle}
use mathlib.Core.List.Perm
use offckb.Base.{
  ℕ, zero, suc, ◌+◌, ◌<◌, ◌≤◌, ◌≡◌, refl, ◌≢◌, inl, inr, ◌∙◌, sym, ap, some, List, [], ◌∷◌, ◌++◌,
  eqb, length, take, drop, get_elem?, Bool-cases, take-append-drop, arith,
}
use offckb.ConfigEditor.DocumentEdits.{insert_at, remove_at, move}

module _ {ℓ} {A : Type ℓ} where
  -- An item taken out and put back at its place.
  insert_at-remove_at :
      (i : ℕ) (v : A) (vs : List A) → get_elem? vs i ≡ some v → insert_at i v (remove_at i vs) ≡ vs
  unfolding insert_at remove_at
  insert_at-remove_at i v [] h = cc
  insert_at-remove_at zero v (x ∷ vs) h = ap (λ t. t ∷ vs) (sym (some-injective x v h))
  insert_at-remove_at (suc i) v (x ∷ vs) h = ap (λ t. x ∷ t) (insert_at-remove_at i v vs h)

  remove_at-insert_at :
      (i : ℕ) (v : A) (vs : List A) → i ≤ length vs → remove_at i (insert_at i v vs) ≡ vs
  unfolding insert_at remove_at
  remove_at-insert_at zero v vs h = refl
  remove_at-insert_at (suc i) v [] h = absurd (omega arith)
  remove_at-insert_at (suc i) v (x ∷ vs) h =
      ap (λ t. x ∷ t) (remove_at-insert_at i v vs (omega arith))

  get_elem?-insert_at :
      (i : ℕ) (v : A) (vs : List A) → i ≤ length vs → get_elem? (insert_at i v vs) i ≡ some v
  unfolding insert_at
  get_elem?-insert_at zero v vs h = refl
  get_elem?-insert_at (suc i) v [] h = absurd (omega arith)
  get_elem?-insert_at (suc i) v (x ∷ vs) h = get_elem?-insert_at i v vs (omega arith)

  length-remove_at : (i : ℕ) (vs : List A) → i < length vs → length (remove_at i vs) + 1 ≡ length vs
  unfolding remove_at
  length-remove_at i [] h = absurd (omega arith)
  length-remove_at zero (x ∷ vs) h = omega arith
  length-remove_at (suc i) (x ∷ vs) h = omega (arith, length-remove_at i vs)

  get_elem?-some : (i : ℕ) (vs : List A) → i < length vs → (v : A) × (get_elem? vs i ≡ some v)
  get_elem?-some i [] h = absurd (omega arith)
  get_elem?-some zero (x ∷ vs) h = (x, refl)
  get_elem?-some (suc i) (x ∷ vs) h = get_elem?-some i vs (omega arith)

  insert_at-perm : (i : ℕ) (v : A) (vs : List A) → Perm (insert_at i v vs) (v ∷ vs)
  unfolding insert_at
  insert_at-perm i v vs = Perm.trans (perm_middle (take i vs) (drop i vs)) (
      subst (λ t. Perm (v ∷ (take i vs ++ drop i vs)) (v ∷ t)) (take-append-drop i vs)
        (Perm.refl (v ∷ (take i vs ++ drop i vs))))

  -- What a move does to an item that is there.
  move_cases :
      (from to : ℕ) (vs : List A) (v : A)
      → get_elem? vs from ≡ some v
      → from ≢ to
      → move from to vs ≡ insert_at to v (remove_at from vs)
  unfolding move
  move_cases from to vs v h d = ground arith

  move_same : (i : ℕ) (vs : List A) → move i i vs ≡ vs
  unfolding move
  move_same i vs = ground arith

  -- Of an item that is there, to another place of the array.
  move_apart :
      (from to : ℕ) (vs : List A) (v : A)
      → get_elem? vs from ≡ some v
      → from ≢ to
      → from < length vs
      → to < length vs
      → Perm (move from to vs) vs
        × (get_elem? (move from to vs) to ≡ some v)
        × (move to from (move from to vs) ≡ vs)
  move_apart from to vs v h d hf ht =
      let shorter = length-remove_at from vs hf in
      let there : get_elem? (insert_at to v (remove_at from vs)) to ≡ some v =
        get_elem?-insert_at to v (remove_at from vs) (omega arith) in
      rw (move_cases from to vs v h d) (
        Perm.trans (insert_at-perm to v (remove_at from vs)) (
            Perm.symm (
              subst (λ t. Perm t (v ∷ remove_at from vs)) (insert_at-remove_at from v vs h)
                (insert_at-perm from v (remove_at from vs)))),
        there,
        move_cases to from (insert_at to v (remove_at from vs)) v there (λ e. d (sym e))
            ∙ ap (insert_at from v) (remove_at-insert_at to v (remove_at from vs) (omega arith))
            ∙ insert_at-remove_at from v vs h,
      )

  -- Within the array, a move keeps the items, puts the chosen one at its new index, and the move
  -- back restores the array.
  pub move_laws :
      (from to : ℕ) (vs : List A)
      → from < length vs
      → to < length vs
      → Perm (move from to vs) vs
        × (get_elem? (move from to vs) to ≡ get_elem? vs from)
        × (move to from (move from to vs) ≡ vs)
  move_laws from to vs hf ht = elim (Bool-cases (eqb from to)) [
    | inl same ↦
        let e : from ≡ to = ground arith in
        subst
          (λ t.
            Perm (move from t vs) vs
            × (get_elem? (move from t vs) t ≡ get_elem? vs from)
            × (move t from (move from t vs) ≡ vs))
          e (rw (move_same from vs) (Perm.refl vs, refl, move_same from vs))
    | inr other ↦
        let (v, h) = get_elem?-some from vs hf in
        rw h (move_apart from to vs v h (ground arith) hf ht)
  ]
