-- ===== src/Chain/Listening.antt =====
-- `enableTcpListenAddress` of src/node/init-chain.ts.
use mathlib.Core.Path.{subst}
use offckb.Base.{
  ℕ, zero, suc, ◌+◌, ◌-◌, ◌≡◌, ◌≤◌, ◌<◌, length, list_eqb_refl, ◌⊎◌, inl, inr, refl, ap, ◌∙◌, Bool,
  true, false, not, ◌&&◌, Option, none, some, List, [], ◌∷◌, ◌++◌, if◌then◌else◌, ltb, every, set,
  eqb, ◌==◌, nat_eq, text_eq, Bool-cases, Option-cases, list_eqb_iff, arith,
}
use offckb.Base.Text.{Text, text, trim_start, is_space}
use offckb.Logs.{is_terminator, span}
use offckb.Daemon.Processes.Tokens.{quoted}
use offckb.Chain.Lines.{
  after_prefix, after_unit, after_blanks, Section, find_index, find_from, find_modules, insert_at,
  is_match, after_modules, line_at, has_bracket,
}

unfoldable pub default_tcp_listen_address : Text
unfolding text
default_tcp_listen_address = text "127.0.0.1:18114"

unfoldable pub tcp_listen_address : Text
unfolding text
tcp_listen_address = text "tcp_listen_address"

-- `tcp_listen_address\s*=` at the front, and what follows.
abbrev pub after_key : Text → Option Text
after_key s = after_unit b'=' (after_blanks (after_prefix tcp_listen_address s))

abbrev pub is_setting : Option Text → Bool
is_setting none = false
is_setting (some value) = every (λ c. not (is_terminator c)) value

abbrev pub uncommented : Text × Text → Option (Text × Text)
uncommented (indent, []) = none
uncommented (indent, c ∷ s) =
    if eqb c b'#' && is_setting (after_key (trim_start s))
    then some (indent, trim_start s)
    else none

-- `/^(\s*)#\s*(tcp_listen_address\s*=.*)$/`: the two groups.
unfoldable pub commented : Text → Option (Text × Text)
unfolding is_space trim_start after_prefix tcp_listen_address
commented line = uncommented (span is_space line)

-- `tcp_listen_address\s*=\s*"([^"]*)"` at the front: the group.
abbrev pub value_at : Text → Option Text
value_at s = elim (after_unit b'"' (after_blanks (after_key s))) [
  | none ↦ none
  | some rest ↦ elim (quoted b'"' rest) [ none ↦ none | some (value, after) ↦ some value ]
]

-- The same pattern anywhere.
unfoldable pub address_in : Text → Option Text
unfolding trim_start after_prefix tcp_listen_address quoted
address_in [] = none
address_in (c ∷ s) =
    let rest = address_in s in elim (value_at (c ∷ s)) [ none ↦ rest | some value ↦ some value ]

abbrev pub is_default : Option Text → Bool
is_default none = false
is_default (some address) = address == default_tcp_listen_address

abbrev pub has_default : Option (Text × Text) → Bool
has_default none = false
has_default (some (indent, setting)) = is_default (address_in setting)

-- A line with the stock address commented out.
unfoldable pub is_stock : Text → Bool
unfolding commented address_in default_tcp_listen_address
is_stock line = has_default (commented line)

abbrev pub enabled_line : Option (Text × Text) → Text → Text
enabled_line none line = line
enabled_line (some (indent, setting)) line = indent ++ setting

unfoldable pub listen_line : Text
unfolding default_tcp_listen_address tcp_listen_address text
listen_line = tcp_listen_address ++ (text " = \"" ++ (default_tcp_listen_address ++ (b'"' ∷ [])))

-- The end of the modules array: `n` lines are left before the end of the section.
unfoldable pub after_array : ℕ → ℕ → List Text → ℕ
after_array zero i lines = i
after_array (suc n) i lines =
    let next = after_array n (suc i) lines in
    if has_bracket (line_at (i - 1) lines) then i else next

abbrev pub insert_index : List Text → Section → Option ℕ → ℕ
insert_index lines s none = suc s.start
insert_index lines s (some i) = after_array (s.end' - suc i) (suc i) lines

abbrev pub enable_at : List Text → Section → Option ℕ → List Text
enable_at lines s (some i) =
    set lines i (enabled_line (commented (line_at i lines)) (line_at i lines))
enable_at lines s none = insert_at (insert_index lines s (find_modules lines s)) listen_line lines

-- `enableTcpListenAddress`: the new lines.
unfoldable pub enable_tcp_listen_address : List Text → Section → List Text
unfolding find_index is_stock insert_at find_modules after_array listen_line
enable_tcp_listen_address lines s =
    enable_at lines s (find_index is_stock (suc s.start) s.end' lines)

abbrev pub IsInside : Section → ℕ → Type 0
IsInside s i = (s.start < i) × (i < s.end')

-- A line with a commented setting that contains the stock address.
abbrev pub IsStock : Text → Text → Text → Type 0
IsStock line indent setting =
    (commented line ≡ some (indent, setting))
    × (address_in setting ≡ some default_tcp_listen_address)

-- The start of the section; or behind the line of its modules, after the line that closes them or at
-- the end of the section.
abbrev pub IsPlace : List Text → Section → ℕ → Type 0
IsPlace lines s i =
    (i ≡ suc s.start)
    ⊎ ((m : ℕ) × IsInside s m
        × (is_match (after_modules (line_at m lines)) ≡ true)
        × (m < i)
        × (i ≤ s.end')
        × ((i ≡ s.end') ⊎ (has_bracket (line_at (i - 1) lines) ≡ true)))

abbrev pub IsEnabled : List Text → Section → List Text → Type 0
IsEnabled lines s result =
    ((i : ℕ) × (indent : Text) × (setting : Text) × IsInside s i
      × IsStock (line_at i lines) indent setting
      × (result ≡ set lines i (indent ++ setting)))
    ⊎ (((i : ℕ)
          → IsInside s i
          → i < length lines
          → (indent setting : Text) → ¬ (IsStock (line_at i lines) indent setting))
        × ((i : ℕ) × IsPlace lines s i × (result ≡ insert_at i listen_line lines)))

has_default-setting :
    (o : Option (Text × Text)) (line : Text)
    → has_default o ≡ true
    → (indent : Text) × (setting : Text) × (o ≡ some (indent, setting))
      × (address_in setting ≡ some default_tcp_listen_address)
      × (enabled_line o line ≡ indent ++ setting)
has_default-setting none line h = cc
has_default-setting (some (indent, setting)) line h = elim (Option-cases (address_in setting)) [
  | inl missing ↦ cc (rw missing at h)
  | inr (address, found) ↦
      (indent, setting, refl, found ∙ ap some ((list_eqb_iff _ _).0 (rw found at h)), refl)
]

has_default-false :
    (line indent setting : Text)
    → has_default (commented line) ≡ false
    → ¬ (IsStock line indent setting)
has_default-false line indent setting h (found, default) =
    let stock : has_default (commented line) ≡ true =
      ap has_default found ∙ ap is_default default ∙ list_eqb_refl default_tcp_listen_address in
    cc

-- The line that is found passes, and stands within the bounds.
find_from-passes :
    (p : Text → Bool) (lo hi i : ℕ) (lines : List Text) (k : ℕ)
    → find_from p lo hi i lines ≡ some k
    → (j : ℕ) × (k ≡ i + j) × ((lo ≤ k) × (k < hi)) × (p (line_at j lines) ≡ true)
unfolding find_from
find_from-passes p lo hi i [] k h = cc
find_from-passes p lo hi i (line ∷ lines) k h =
    elim (Bool-cases (not (ltb i lo) && ltb i hi && p line)) [
      | inl here ↦
          let same : i ≡ k = cc (rw here at h) in
          (
            0,
            omega (arith, same),
            (ground (arith, here, same), ground (arith, here, same)),
            ground (arith, here),
          )
      | inr not_here ↦
          let (j, e, bounds, passes) =
            find_from-passes p lo hi (suc i) lines k (rw not_here at h) in
          (suc j, omega (arith, e), bounds, passes)
    ]

find_from-misses :
    (p : Text → Bool) (lo hi i : ℕ) (lines : List Text)
    → find_from p lo hi i lines ≡ none
    → (j : ℕ) → j < length lines
    → lo ≤ i + j
    → i + j < hi
    → p (line_at j lines) ≡ false
unfolding find_from
find_from-misses p lo hi i [] h j short low high = absurd (omega (arith, short))
find_from-misses p lo hi i (line ∷ lines) h zero short low high =
    elim (Bool-cases (not (ltb i lo) && ltb i hi && p line)) [
      | inl here ↦ cc (rw here at h)
      | inr not_here ↦ ground (arith, not_here, low, high)
    ]
find_from-misses p lo hi i (line ∷ lines) h (suc j) short low high =
    elim (Bool-cases (not (ltb i lo) && ltb i hi && p line)) [
      | inl here ↦ cc (rw here at h)
      | inr not_here ↦
          find_from-misses p lo hi (suc i) lines (rw not_here at h) j (omega (arith, short))
            (omega (arith, low)) (omega (arith, high))
    ]

after_array_lem :
    (n i : ℕ) (lines : List Text)
    → (i ≤ after_array n i lines)
      × (after_array n i lines ≤ i + n)
      × ((after_array n i lines ≡ i + n)
          ⊎ (has_bracket (line_at (after_array n i lines - 1) lines) ≡ true))
unfolding after_array
after_array_lem zero i lines = (omega arith, omega arith, inl (omega arith))
after_array_lem (suc n) i lines = elim (Bool-cases (has_bracket (line_at (i - 1) lines))) [
  | inl closed ↦ rw closed (omega arith, omega arith, inr closed)
  | inr onward ↦
      let (low, high, ends) = after_array_lem n (suc i) lines in
      rw onward (
        omega (arith, low),
        omega (arith, high),
        elim ends [ inl all ↦ inl (omega (arith, all)) | inr closed ↦ inr closed ],
      )
]

insert_index-IsPlace :
    (lines : List Text) (s : Section) (found : Option ℕ)
    → find_modules lines s ≡ found
    → IsPlace lines s (insert_index lines s found)
unfolding find_modules find_index
insert_index-IsPlace lines s none h = inl refl
insert_index-IsPlace lines s (some m) h =
    let (j, same, (low, high), passes) =
      find_from-passes (λ line. is_match (after_modules line)) (suc s.start) s.end' 0 lines m h in
    let (after, before, ends) = after_array_lem (s.end' - suc m) (suc m) lines in
    inr (
      m,
      (omega (arith, low), high),
      subst (λ k. is_match (after_modules (line_at k lines)) ≡ true) (omega (arith, same)) passes,
      omega (arith, after),
      omega (arith, before, high),
      elim ends [ inl all ↦ inl (omega (arith, all, high)) | inr closed ↦ inr closed ],
    )

enable_at-IsEnabled :
    (lines : List Text) (s : Section) (found : Option ℕ)
    → find_index is_stock (suc s.start) s.end' lines ≡ found
    → IsEnabled lines s (enable_at lines s found)
unfolding find_index is_stock
enable_at-IsEnabled lines s none e = inr (
  λ i inside short indent setting. has_default-false (line_at i lines) indent setting (
      find_from-misses is_stock (suc s.start) s.end' 0 lines e i short (omega (arith, inside.0))
        (omega (arith, inside.1))),
  (
    insert_index lines s (find_modules lines s),
    insert_index-IsPlace lines s (find_modules lines s) refl,
    refl,
  ),
)
enable_at-IsEnabled lines s (some i) e =
    let (j, same, (low, high), stock) =
      find_from-passes is_stock (suc s.start) s.end' 0 lines i e in
    let same' : j ≡ i = omega (arith, same) in
    let (indent, setting, is_commented, default, enabled) =
      has_default-setting (commented (line_at i lines)) (line_at i lines)
        (subst (λ k. has_default (commented (line_at k lines)) ≡ true) same' stock) in
    inl (
      i,
      indent,
      setting,
      (omega (arith, low), high),
      (is_commented, default),
      ap (set lines i) enabled,
    )

pub enable_tcp_listen_address-IsEnabled :
    (lines : List Text) (s : Section) → IsEnabled lines s (enable_tcp_listen_address lines s)
unfolding enable_tcp_listen_address
enable_tcp_listen_address-IsEnabled lines s =
    enable_at-IsEnabled lines s (find_index is_stock (suc s.start) s.end' lines) refl
