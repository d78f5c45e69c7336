-- ===== src/Fiber/StoreLock/Laws.antt =====
-- When a store counts as free.
use mathlib.Core.Option.{some-injective}
use mathlib.Core.Path.{subst}
use offckb.Base.{
  sym, ℕ, ◌≡◌, ◌↔◌, ◌⊎◌, inl, inr, refl, true, false, none, some, List, [], ◌∷◌, every, get_elem?,
  eqb_iff, zero, suc, arith, Bool-cases, ap, ◌∙◌,
}
use offckb.Base.Text.{Text}
use offckb.Fiber.StoreLock.{
  Rename, Lsof, Inspection, renamed, printed, exited, missing, timed_out, signalled, renamed_answer,
  is_printed, lsof_answer, is_store_lock_held, is_free, wait_for_store_locks_released,
}

-- An inspection that came to its end and found no holder.
abbrev pub FoundFree : Inspection → Type 0
FoundFree x =
    (x.exists ≡ false)
    ⊎ ((x.is_windows ≡ true) × (x.rename ≡ renamed))
    ⊎ ((x.is_windows ≡ false)
        × ((out : Text) × (is_printed out ≡ false)
            × ((x.lsof ≡ printed out) ⊎ (x.lsof ≡ exited 1 (some out)))))

rename_iff : (r : Rename) → (renamed_answer r ≡ some false) ↔ (r ≡ renamed)
rename_iff r = ground arith

NoHolder : Lsof → Type 0
NoHolder l =
    (out : Text) × (is_printed out ≡ false) × ((l ≡ printed out) ⊎ (l ≡ exited 1 (some out)))

lsof_answer_sound : (l : Lsof) → lsof_answer l ≡ some false → NoHolder l
unfolding NoHolder
lsof_answer_sound (printed out) h = (out, ground (arith, h), inl refl)
lsof_answer_sound (exited s none) h = absurd (ground (arith, h))
lsof_answer_sound (exited s (some out)) h =
    (out, ground (arith, h), inr (ap (λ n. exited n (some out)) (ground (arith, h, eqb_iff s 1))))
lsof_answer_sound missing h = absurd (ground (arith, h))
lsof_answer_sound timed_out h = absurd (ground (arith, h))
lsof_answer_sound signalled h = absurd (ground (arith, h))

lsof_answer_complete : (l : Lsof) → NoHolder l → lsof_answer l ≡ some false
unfolding NoHolder
lsof_answer_complete l (out, b, inl e) = ap lsof_answer e ∙ ap some b
lsof_answer_complete l (out, b, inr e) = ap lsof_answer e ∙ ap some b

held_sound : (x : Inspection) → is_store_lock_held x ≡ some false → FoundFree x
unfolding is_store_lock_held NoHolder
held_sound x h = elim (Bool-cases x.exists) [
  | inr no_file ↦ inl no_file
  | inl there ↦ elim (Bool-cases x.is_windows) [
    | inl w ↦ inr (inl (w, (rename_iff x.rename).0 (ground (arith, h, there, w))))
    | inr w ↦ inr (inr (w, lsof_answer_sound x.lsof (ground (arith, h, there, w))))
  ]
]

held_complete : (x : Inspection) → FoundFree x → is_store_lock_held x ≡ some false
unfolding is_store_lock_held NoHolder
held_complete x (inl no_file) = ground (arith, no_file)
held_complete x (inr (inl (w, r))) = ground (arith, w, (rename_iff x.rename).1 r)
held_complete x (inr (inr (w, l))) = ground (arith, w, lsof_answer_complete x.lsof l)

-- A lock counts as free exactly when its file is not there, or when the inspection came to its end
-- and found no holder: a lsof that is missing, does not end in time or fails never frees it.
pub is_store_lock_held_iff : (x : Inspection) → (is_store_lock_held x ≡ some false) ↔ FoundFree x
is_store_lock_held_iff x = (held_sound x, held_complete x)

-- The wait succeeds exactly when in one of its rounds each lock file is free.
pub wait_for_store_locks_released_iff :
    (rounds : List (List Inspection))
    → (wait_for_store_locks_released rounds ≡ true) ↔ (
        (i : ℕ) × (round : List Inspection) × (get_elem? rounds i ≡ some round)
        × (every (λ x. is_free (is_store_lock_held x)) round ≡ true))
unfolding wait_for_store_locks_released
wait_for_store_locks_released_iff [] = (λ h. absurd (ground (arith, h)), λ (i, r, e, _). cc)
wait_for_store_locks_released_iff (round ∷ rounds) =
    let (there, back) = wait_for_store_locks_released_iff rounds in
    (
      λ h. elim (Bool-cases (every (λ x. is_free (is_store_lock_held x)) round)) [
        | inl b ↦ (0, round, refl, b)
        | inr b ↦ let (i, r, at, free) = there (ground (arith, h, b)) in (suc i, r, at, free)
      ],
      λ (i, r, at, free).
          elim i
              as (λ n.
                get_elem? (round ∷ rounds) n ≡ some r
                → wait_for_store_locks_released (round ∷ rounds) ≡ true) [
                  | zero ↦ λ first.
                      let free' =
                        subst (λ t. every (λ x. is_free (is_store_lock_held x)) t ≡ true)
                          (sym (some-injective round r first)) free in
                      ground (arith, free')
                  | suc n ↦ λ later. ground (arith, back (n, r, later, free))
                ]
            at,
    )
