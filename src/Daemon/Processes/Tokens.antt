-- ===== src/Daemon/Processes/Tokens.antt =====
-- `splitCommandLine` of src/util/daemon.ts: a command line cut into words and quoted parts.
use offckb.Base.{
  ℕ, zero, suc, ◌≤◌, ◌≡◌, refl, ap, true, false, ◌||◌, Option, none, some, List, [], ◌∷◌, ◌++◌,
  if◌then◌else◌, eqb, length, All, arith, ◌∙◌, length-append,
}
use offckb.Base.Text.{Text, is_space, join}

-- `([^q]*)q`: what stands before the next quotation mark, and the rest after it.
unfoldable pub quoted : ℕ → Text → Option (Text × Text)
quoted q [] = none
quoted q (c ∷ s) =
    let rest = quoted q s in
    if eqb c q
    then some ([], s)
    else elim rest [ none ↦ none | some (part, after) ↦ some (c ∷ part, after) ]

-- `\S+` from its first unit.
unfoldable pub word : Text → Text × Text
unfolding is_space
word [] = ([], [])
word (c ∷ s) = let rest = word s in if is_space c then ([], c ∷ s) else (c ∷ rest.0, rest.1)

-- The first alternative of the pattern that matches at `c ∷ s`, where `c` is no blank.
abbrev pub token_at : ℕ → Text → Text × Text
token_at c s =
    if eqb c b'"' || eqb c b'\''
    then elim (quoted c s) [ some r ↦ r | none ↦ word (c ∷ s) ]
    else word (c ∷ s)

-- The loop over `pattern.exec`; the fuel is the length of the text.
unfoldable pub split_tokens : ℕ → Text → List Text
unfolding quoted word
split_tokens fuel [] = []
split_tokens zero (c ∷ s) = []
split_tokens (suc fuel) (c ∷ s) = elim (is_space c) [
  | true ↦ split_tokens fuel s
  | false ↦ let r = token_at c s in r.0 ∷ split_tokens fuel r.1
]

unfoldable pub split_command_line : Text → List Text
unfolding split_tokens
split_command_line s = split_tokens (length s) s

-- A word of a command line that needs no quotes: not empty, with no blank, and with no quotation
-- mark in front.
abbrev pub IsPlain : Text → Type 0
IsPlain [] = ⊥
IsPlain (c ∷ s) = ((eqb c b'"' || eqb c b'\'') ≡ false) × All (λ d. is_space d ≡ false) (c ∷ s)

-- The word in front of a blank, or at the end.
word-blank : (w s : Text) → All (λ d. is_space d ≡ false) w → word (w ++ 32 ∷ s) ≡ (w, 32 ∷ s)
unfolding word
word-blank [] s h = refl
word-blank (c ∷ w) s h = rw h.0 (ap (λ r. (c ∷ r.0, r.1)) (word-blank w s h.1))

word-end : (w : Text) → All (λ d. is_space d ≡ false) w → word w ≡ (w, [])
unfolding word
word-end [] h = refl
word-end (c ∷ w) h = rw h.0 (ap (λ r. (c ∷ r.0, r.1)) (word-end w h.1))

split_tokens-first :
    (fuel c : ℕ) (w s : Text)
    → IsPlain (c ∷ w)
    → split_tokens (suc fuel) ((c ∷ w) ++ 32 ∷ s) ≡ (c ∷ w) ∷ split_tokens fuel (32 ∷ s)
unfolding split_tokens
split_tokens-first fuel c w s h =
    rw (h.1.0, split_tokens)
      (rw h.0 (ap (λ r. r.0 ∷ split_tokens fuel r.1) (word-blank (c ∷ w) s h.1)))

split_tokens-last :
    (fuel c : ℕ) (w : Text) → IsPlain (c ∷ w) → split_tokens (suc fuel) (c ∷ w) ≡ (c ∷ w) ∷ []
unfolding split_tokens
split_tokens-last fuel c w h =
    rw (h.1.0, split_tokens) (rw h.0 (ap (λ r. r.0 ∷ split_tokens fuel r.1) (word-end (c ∷ w) h.1)))

split_tokens-nil : (fuel : ℕ) → split_tokens fuel [] ≡ []
unfolding split_tokens
split_tokens-nil zero = refl
split_tokens-nil (suc fuel) = refl

split_tokens-blank : (fuel : ℕ) (s : Text) → split_tokens (suc fuel) (32 ∷ s) ≡ split_tokens fuel s
unfolding split_tokens is_space
split_tokens-blank fuel s = refl

split_tokens-join :
    (fuel : ℕ) (ws : List Text)
    → All IsPlain ws
    → length (join (32 ∷ []) ws) ≤ fuel
    → split_tokens fuel (join (32 ∷ []) ws) ≡ ws
unfolding join
split_tokens-join fuel [] h le = split_tokens-nil fuel
split_tokens-join fuel ([] ∷ ws) h le = absurd h.0
split_tokens-join zero ((c ∷ w) ∷ []) h le = absurd (omega arith)
split_tokens-join (suc fuel) ((c ∷ w) ∷ []) h le = split_tokens-last fuel c w h.0
split_tokens-join zero ((c ∷ w) ∷ v ∷ ws) h le = absurd (omega arith)
split_tokens-join (suc zero) ((c ∷ w) ∷ v ∷ ws) h le =
    absurd (omega (arith, le, length-append {0} w ((32 ∷ []) ++ join (32 ∷ []) (v ∷ ws))))
split_tokens-join (suc (suc fuel)) ((c ∷ w) ∷ v ∷ ws) h le =
    split_tokens-first (suc fuel) c w (join (32 ∷ []) (v ∷ ws)) h.0
    ∙ ap (λ t. (c ∷ w) ∷ t)
        (split_tokens-blank fuel (join (32 ∷ []) (v ∷ ws))
          ∙ split_tokens-join fuel (v ∷ ws) h.1
              (omega (arith, length-append {0} w ((32 ∷ []) ++ join (32 ∷ []) (v ∷ ws)))))

-- A command line of words that need no quotes, joined by single blanks, is cut into these words.
pub split_command_line-join :
    (ws : List Text) → All IsPlain ws → split_command_line (join (32 ∷ []) ws) ≡ ws
unfolding split_command_line
split_command_line-join ws h = split_tokens-join (length (join (32 ∷ []) ws)) ws h (omega arith)
