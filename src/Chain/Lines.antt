-- ===== src/Chain/Lines.antt =====
-- The lines of a TOML file and its section [rpc], as the patterns of src/node/init-chain.ts have
-- them. A line may end in a carriage return.
use offckb.Base.{
  ℕ, zero, suc, Bool, true, false, not, ◌&&◌, Option, none, some, List, [], ◌∷◌, if◌then◌else◌, ltb,
  length, get_elem?, eqb, ◌==◌, nat_eq, text_eq,
}
use offckb.Base.Text.{Text, text, trim, trim_start, is_empty, includes}

-- What follows a prefix.
unfoldable pub after_prefix : Text → Text → Option Text
after_prefix [] s = some s
after_prefix (c ∷ p) [] = none
after_prefix (c ∷ p) (d ∷ s) = if eqb c d then after_prefix p s else none

abbrev pub after_unit : ℕ → Option Text → Option Text
after_unit c none = none
after_unit c (some []) = none
after_unit c (some (d ∷ s)) = if eqb c d then some s else none

-- `\s*`
abbrev pub after_blanks : Option Text → Option Text
after_blanks none = none
after_blanks (some s) = some (trim_start s)

abbrev pub is_match : Option Text → Bool
is_match none = false
is_match (some s) = true

-- `/^\s*\[rpc\]\s*$/`
unfoldable pub is_rpc_header : Text → Bool
unfolding trim text
is_rpc_header line = trim line == text "[rpc]"

-- `[^\]]*\]` up to the end.
unfoldable pub closes : Text → Bool
closes [] = false
closes (c ∷ s) = if eqb c b']' then is_empty s else closes s

abbrev pub header_of : Text → Bool
header_of [] = false
header_of (c ∷ s) = eqb c b'[' && closes s

-- `/^\s*\[[^\]]*\]\s*$/`
unfoldable pub is_header : Text → Bool
unfolding trim closes
is_header line = header_of (trim line)

-- `/^\s*modules\s*=\s*\[/`, and what follows it.
unfoldable pub after_modules : Text → Option Text
unfolding after_prefix text
after_modules line = after_unit b'[' (
    after_blanks (after_unit b'=' (after_blanks (after_prefix (text "modules") (trim_start line)))))

-- The first index from `lo` that is below `hi` and whose line passes.
unfoldable pub find_from : (Text → Bool) → ℕ → ℕ → ℕ → List Text → Option ℕ
find_from p lo hi i [] = none
find_from p lo hi i (line ∷ lines) =
    let rest = find_from p lo hi (suc i) lines in
    if not (ltb i lo) && ltb i hi && p line then some i else rest

unfoldable pub find_index : (Text → Bool) → ℕ → ℕ → List Text → Option ℕ
unfolding find_from
find_index p lo hi lines = find_from p lo hi 0 lines

-- `lines.splice(i, 0, line)`
unfoldable pub insert_at : ℕ → Text → List Text → List Text
insert_at zero line lines = line ∷ lines
insert_at (suc i) line [] = line ∷ []
insert_at (suc i) line (l ∷ lines) = l ∷ insert_at i line lines

-- `lines.splice(i, 1)`
unfoldable pub remove_at : ℕ → List Text → List Text
remove_at i [] = []
remove_at zero (l ∷ lines) = lines
remove_at (suc i) (l ∷ lines) = l ∷ remove_at i lines

abbrev pub line_at : ℕ → List Text → Text
line_at i lines = elim (get_elem? lines i) [ none ↦ [] | some line ↦ line ]

pub record Section : Type 0 where
  pub start : ℕ
  pub end' : ℕ

abbrev pub or_length : List Text → Option ℕ → ℕ
or_length lines none = length lines
or_length lines (some i) = i

-- `findRpcSection`
unfoldable pub find_rpc_section : List Text → Option Section
unfolding find_index is_rpc_header is_header
find_rpc_section lines = elim (find_index is_rpc_header 0 (length lines) lines) [
  | none ↦ none
  | some start ↦ some (record {
    start = start;
    end' = or_length lines (find_index is_header (suc start) (length lines) lines);
  })
]

-- The line of the modules in a section.
unfoldable pub find_modules : List Text → Section → Option ℕ
unfolding find_index after_modules
find_modules lines s = find_index (λ line. is_match (after_modules line)) (suc s.start) s.end' lines

abbrev pub has_bracket : Text → Bool
has_bracket line = includes line (b']' ∷ [])
