-- ===== src/Logs/Parts.antt =====
-- Texts and bytes in parts, for logs that are read in pieces.
use offckb.Base.{
  ℕ, zero, suc, ◌+◌, ◌-◌, ◌≤◌, ◌≡◌, inl, inr, refl, sym, ap, ◌∙◌, Bool, false, List, [], ◌∷◌, ◌++◌,
  eqb, nat_eq, length, take, drop, filter, Bool-cases, arith,
}
use offckb.Base.Text.{Text}
use offckb.Logs.{cons_first, close_line, split_lines}

-- The lines of a text in two parts: the rest of the first part goes before the second.
unfoldable pub with_lines : List Text → List Text × Text → List Text × Text
with_lines lines (more, rest) = (lines ++ more, rest)

first_part :
    (c : ℕ) (parts : List Text × Text) (t : Text)
    → eqb c 10 ≡ false
    → cons_first c (with_lines parts.0 (split_lines (parts.1 ++ t)))
      ≡ with_lines (cons_first c parts).0 (split_lines ((cons_first c parts).1 ++ t))
unfolding split_lines with_lines
first_part c ([], rest) t b = rw b refl
first_part c (line ∷ lines, rest) t b = refl

pub split_lines-append :
    (s t : Text)
    → split_lines (s ++ t) ≡ with_lines (split_lines s).0 (split_lines ((split_lines s).1 ++ t))
unfolding split_lines with_lines
split_lines-append [] t = refl
split_lines-append (c ∷ s) t = elim (Bool-cases (eqb c 10)) [
  | inl b ↦ rw b (ap close_line (split_lines-append s t))
  | inr b ↦ rw b (ap (cons_first c) (split_lines-append s t) ∙ first_part c (split_lines s) t b)
]

pub filter-append :
    (p : Text → Bool) (xs ys : List Text) → filter p (xs ++ ys) ≡ filter p xs ++ filter p ys
filter-append p [] ys = refl
filter-append p (x ∷ xs) ys = ground (arith, filter-append p xs ys)

take_nil : (n : ℕ) → ◌≡◌ {A = List ℕ} (take n []) []
take_nil zero = refl
take_nil (suc n) = refl

-- What is taken off the front is a front part.
pub take_taken :
    (n k : ℕ) (xs : List ℕ) → take (length (take n (take k xs))) xs ≡ take n (take k xs)
take_taken zero k xs = refl
take_taken (suc n) zero xs = refl
take_taken (suc n) (suc k) [] = refl
take_taken (suc n) (suc k) (x ∷ xs) = ap (λ t. x ∷ t) (take_taken n k xs)

pub take-drop : (a k : ℕ) (xs : List ℕ) → take (k - a) (drop a xs) ≡ drop a (take k xs)
take-drop zero k xs = ap (λ n. take n xs) (omega arith)
take-drop (suc a) zero xs =
    let none_left : 0 - suc a ≡ 0 = omega arith in ap (λ n. take n (drop (suc a) xs)) none_left
take-drop (suc a) (suc k) [] = take_nil (suc k - suc a)
take-drop (suc a) (suc k) (x ∷ xs) = ap (λ n. take n (drop a xs)) (omega arith) ∙ take-drop a k xs

pub take-add :
    (a : ℕ) (b xs : List ℕ)
    → take (length b) (drop a xs) ≡ b
    → take (a + length b) xs ≡ take a xs ++ b
take-add zero b xs h = ap (λ n. take n xs) (omega arith) ∙ h
take-add (suc a) b [] h = take_nil (suc a + length b) ∙ sym (take_nil (length b)) ∙ h
take-add (suc a) b (x ∷ xs) h =
    let more : suc a + length b ≡ suc (a + length b) = omega arith in
    ap (λ n. take n (x ∷ xs)) more ∙ ap (λ t. x ∷ t) (take-add a b xs h)

pub drop-append : (k : ℕ) (xs ys : List ℕ) → k ≤ length xs → drop k (xs ++ ys) ≡ drop k xs ++ ys
drop-append zero xs ys h = refl
drop-append (suc k) [] ys h = absurd (omega arith)
drop-append (suc k) (x ∷ xs) ys h = drop-append k xs ys (omega (arith, h))
