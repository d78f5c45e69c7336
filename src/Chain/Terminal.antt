-- ===== src/Chain/Terminal.antt =====
-- `addTerminalModule` and `removeTerminalModule` of src/node/init-chain.ts.
pub mod Faults
use offckb.Base.{
  ℕ, zero, suc, ◌+◌, ◌-◌, Bool, true, false, not, ◌&&◌, ◌||◌, Option, none, some, List, [], ◌∷◌,
  ◌++◌, if◌then◌else◌, ltb, leb, length, every, set, eqb, ◌==◌, nat_eq, text_eq,
}
use offckb.Base.Text.{
  Text, text, trim, trim_start, starts_with, ends_with, is_empty, includes, reverse_text,
}
use offckb.Logs.{is_terminator}
use offckb.Chain.Lines.{
  after_prefix, after_unit, after_blanks, Section, find_modules, find_index, insert_at, remove_at,
  line_at, has_bracket,
}

unfoldable pub quoted_terminal : Text
unfolding text
quoted_terminal = b'"' ∷ text "Terminal" ++ (b'"' ∷ [])

-- What stands before the first `]`, and after it.
unfoldable pub at_bracket : Text → Option (Text × Text)
at_bracket [] = none
at_bracket (c ∷ s) =
    if eqb c b']'
    then some ([], s)
    else elim (at_bracket s) [ none ↦ none | some (before, after) ↦ some (c ∷ before, after) ]

-- `\s*(?:#.*)?$`
abbrev pub comment_or_end : Text → Bool
comment_or_end [] = true
comment_or_end (c ∷ s) = eqb c b'#' && every (λ d. not (is_terminator d)) s

-- The array closes on its own line, and a comment at most follows.
unfoldable pub single_line : Text → Option (Text × Text)
unfolding at_bracket
single_line line = elim (at_bracket line) [
  | none ↦ none
  | some (before, after) ↦ if comment_or_end (trim_start after) then some (before, after) else none
]

-- `s.trimEnd()`
unfoldable pub trim_end : Text → Text
trim_end s = reverse_text (trim_start (reverse_text s))

abbrev pub with_comma : Text → Text
with_comma line =
    if ends_with (trim_end line) (b',' ∷ []) then line else trim_end line ++ (b',' ∷ [])

-- The last line above the closing one that is not blank gets a comma; `n` lines are left to look at.
unfoldable pub comma_above : ℕ → ℕ → List Text → List Text
unfolding trim_end
comma_above start zero lines = lines
comma_above start (suc n) lines =
    let rest = comma_above start n lines in
    let line = line_at (start + suc n) lines in
    if is_empty (trim line) then rest else set lines (start + suc n) (with_comma line)

unfoldable pub terminal_entry : Text
unfolding quoted_terminal
terminal_entry = 32 ∷ 32 ∷ quoted_terminal ++ (b',' ∷ [])

abbrev pub close_array : ℕ → List Text → Option ℕ → Option (List Text)
close_array start lines none = none
close_array start lines (some closing) =
    some (insert_at closing terminal_entry (comma_above start (closing - suc start) lines))

-- `[..., "Terminal"]`, with the rest of the line.
abbrev pub joined : Text × Text → Text
joined (before, after) = before ++ (b',' ∷ 32 ∷ quoted_terminal ++ (b']' ∷ after))

abbrev pub add_at : List Text → Section → ℕ → Option (Text × Text) → Option (List Text)
add_at lines s start (some parts) = some (set lines start (joined parts))
add_at lines s start none =
    close_array start lines (find_index has_bracket (suc start) s.end' lines)

-- `addTerminalModule`: the new lines, if there is a change.
unfoldable pub add_terminal_module : List Text → Section → Option (List Text)
unfolding find_modules single_line comma_above insert_at find_index terminal_entry
add_terminal_module lines s = elim (find_modules lines s) [
  | none ↦ none
  | some start ↦ add_at lines s start (single_line (line_at start lines))
]

-- `s.replace(pattern, by)`: the pattern gives what follows a match at the front.
unfoldable pub replace_first : (Text → Option Text) → Text → Text → Option Text
replace_first m by [] = none
replace_first m by (c ∷ s) =
    let rest = replace_first m by s in
    elim (m (c ∷ s)) [
      | some after ↦ some (by ++ after)
      | none ↦ elim rest [ none ↦ none | some s' ↦ some (c ∷ s') ]
    ]

abbrev pub after_terminal : Option Text → Option Text
after_terminal none = none
after_terminal (some s) = after_prefix quoted_terminal s

-- `,\s*"Terminal"`, `"Terminal"\s*,\s*` and `\[\s*"Terminal"\s*\]`
abbrev pub last_item : Text → Option Text
last_item s = after_terminal (after_blanks (after_unit b',' (some s)))

abbrev pub first_item : Text → Option Text
first_item s = after_blanks (after_unit b',' (after_blanks (after_terminal (some s))))

abbrev pub only_item : Text → Option Text
only_item s =
    after_unit b']' (after_blanks (after_terminal (after_blanks (after_unit b'[' (some s)))))

abbrev pub or_else : Option Text → Option Text → Option Text
or_else (some s) o = some s
or_else none o = o

unfoldable pub remove_from_line : Text → Option Text
unfolding replace_first after_prefix quoted_terminal
remove_from_line line =
    or_else (replace_first last_item [] line)
      (or_else (replace_first first_item [] line) (replace_first only_item (b'[' ∷ b']' ∷ []) line))

-- `/^\s*"Terminal",?\s*$/`
unfoldable pub is_terminal_entry : Text → Bool
unfolding quoted_terminal trim
is_terminal_entry line = trim line == quoted_terminal || trim line == quoted_terminal ++ (b',' ∷ [])

-- The lines from an index: the first entry before a line with a bracket.
unfoldable pub find_entry : ℕ → ℕ → ℕ → List Text → Option ℕ
unfolding is_terminal_entry
find_entry lo hi i [] = none
find_entry lo hi i (line ∷ lines) =
    let rest = find_entry lo hi (suc i) lines in
    if ltb i lo || not (ltb i hi)
    then rest
    else if is_terminal_entry line
    then some i
    else if has_bracket line
    then none
    else rest

abbrev pub optional_set : List Text → ℕ → Option Text → Option (List Text)
optional_set lines i none = none
optional_set lines i (some line) = some (set lines i line)

abbrev pub optional_remove : List Text → Option ℕ → Option (List Text)
optional_remove lines none = none
optional_remove lines (some i) = some (remove_at i lines)

abbrev pub remove_at_modules : List Text → Section → ℕ → Option (List Text)
remove_at_modules lines s start =
    if has_bracket (line_at start lines)
    then optional_set lines start (remove_from_line (line_at start lines))
    else optional_remove lines (find_entry (suc start) s.end' 0 lines)

-- `removeTerminalModule`
unfoldable pub remove_terminal_module : List Text → Section → Option (List Text)
unfolding find_modules remove_from_line find_entry remove_at
remove_terminal_module lines s = elim (find_modules lines s) [
  | none ↦ none
  | some start ↦ remove_at_modules lines s start
]
