-- ===== src/Chain/Terminal/Faults.antt =====
-- A modules array without items.
use offckb.Base.{ℕ, ◌≡◌, refl, ap, ◌∙◌, false, some, List, [], ◌∷◌, ◌++◌, All, eqb, set}
use offckb.Base.Text.{Text, trim_start}
use offckb.Chain.Lines.{Section, find_modules, line_at}
use offckb.Chain.Terminal.{at_bracket, single_line, add_at, add_terminal_module, quoted_terminal}

-- The line has no closing bracket before its end.
abbrev pub HasNoBracket : Text → Type 0
HasNoBracket s = All (λ c. eqb c b']' ≡ false) s

at_bracket-end :
    (before : Text) → HasNoBracket before → at_bracket (before ++ (b']' ∷ [])) ≡ some (before, [])
unfolding at_bracket
at_bracket-end [] h = refl
at_bracket-end (c ∷ s) h = rw (h.0, at_bracket) (rw (at_bracket-end s h.1) refl)

single_line-end :
    (before : Text) → HasNoBracket before → single_line (before ++ (b']' ∷ [])) ≡ some (before, [])
unfolding single_line trim_start
single_line-end before h = rw (at_bracket-end before h, single_line) refl

-- When the line of the modules ends in its closing bracket, a comma and the module are put in front
-- of it whatever stands there, so that an array without items becomes one that TOML refuses.
pub add_terminal_module-single_line :
    (lines : List Text) (s : Section) (i : ℕ) (before : Text)
    → find_modules lines s ≡ some i
    → line_at i lines ≡ before ++ (b']' ∷ [])
    → HasNoBracket before
    → add_terminal_module lines s
      ≡ some (set lines i (before ++ (b',' ∷ 32 ∷ quoted_terminal ++ (b']' ∷ []))))
unfolding add_terminal_module
add_terminal_module-single_line lines s i before found line no_bracket =
    rw (found, add_terminal_module)
      (ap (add_at lines s i) (ap single_line line ∙ single_line-end before no_bracket))
