-- ===== src/Logs.antt =====
-- src/devnet/log-file.ts: the lines of the logs of CKB, filtered, cut to the last ones, and followed
-- while the file grows. Texts are read as UTF-8 by the platform's decoder.
pub mod Filtering
pub mod Parts
pub mod Following
mod Tests
use offckb.Base.{
  ℕ, zero, suc, ◌+◌, ◌-◌, Bool, true, false, ◌&&◌, ◌||◌, not, Option, none, some, List, [], ◌∷◌,
  ◌++◌, if◌then◌else◌, eqb, leb, ltb, ◌==◌, nat_eq, text_eq, length, take, drop, filter, Result, ok,
  err, ◌>>=◌, ◌>>◌, guard,
}
use offckb.Base.Text.{Text, is_space, is_digit, is_empty, includes}

-- The parts of `CKB_LOG_LINE`: each takes what it matches off the text. No part can match less and
-- let the rest match, so none is tried again.
abbrev pub Matched : Type 0 → Type 0
Matched A = Result (Unit {0}) A

abbrev pub unit_if : (ℕ → Bool) → Text → Matched Text
unit_if p [] = err tt
unit_if p (c ∷ s) = if p c then ok s else err tt

abbrev pub unit_of : ℕ → Text → Matched Text
unit_of d = unit_if (λ c. c == d)

-- `\d{n}`
abbrev pub digits : ℕ → Text → Matched Text
digits zero s = ok s
digits (suc n) s = unit_if is_digit s >>= digits n

-- The longest part of which each unit passes, and the rest.
abbrev pub span : (ℕ → Bool) → Text → Text × Text
span p [] = ([], [])
span p (c ∷ s) = let (a, b) = span p s in if p c then (c ∷ a, b) else ([], c ∷ s)

abbrev pub span_some : Text × Text → Matched (Text × Text)
span_some ([], s) = err tt
span_some (c ∷ a, s) = ok (c ∷ a, s)

-- `p+`
abbrev pub some_of : (ℕ → Bool) → Text → Matched (Text × Text)
some_of p s = span_some (span p s)

abbrev pub is_upper : ℕ → Bool
is_upper c = leb b'A' c && leb c b'Z'

abbrev pub is_black : ℕ → Bool
is_black c = not (is_space c)

-- What `.` does not match.
abbrev pub is_terminator : ℕ → Bool
is_terminator c = c == 10 || c == 13 || c == 0x2028 || c == 0x2029

abbrev pub no_terminator : Text → Bool
no_terminator [] = true
no_terminator (c ∷ s) = if is_terminator c then false else no_terminator s

-- `(?:\.\d+)?`
abbrev pub optional_fraction : Text → Matched Text
optional_fraction [] = ok []
optional_fraction (c ∷ s) =
    if c == b'.' then (some_of is_digit s >>= λ (_, r). ok r) else ok (c ∷ s)

unfoldable pub timestamp : Text → Matched Text
unfolding is_digit
timestamp s = do
  s ← digits 4 s
  s ← unit_of b'-' s
  s ← digits 2 s
  s ← unit_of b'-' s
  s ← digits 2 s
  s ← unit_of b' ' s
  s ← digits 2 s
  s ← unit_of b':' s
  s ← digits 2 s
  s ← unit_of b':' s
  s ← digits 2 s
  s ← optional_fraction s
  s ← unit_of b' ' s
  s ← unit_if (λ c. c == b'+' || c == b'-') s
  s ← digits 2 s
  s ← unit_of b':' s
  digits 2 s

-- `parseCkbLogLine(line)?.target`
unfoldable pub log_target : Text → Matched Text
unfolding timestamp is_space
log_target line = do
  s ← timestamp line
  s ← unit_of b' ' s
  (_, s) ← some_of is_black s
  s ← unit_of b' ' s
  (_, s) ← some_of is_upper s
  s ← unit_of b' ' s
  (target, s) ← some_of is_black s
  (_, message) ← some_of is_space s
  guard (no_terminator message) tt
  ok target

-- The loop of `filterLinesByTarget`.
abbrev pub keep_if : Bool → Text → List Text → List Text
keep_if true line rest = line ∷ rest
keep_if false line rest = rest

abbrev pub is_kept : Bool → Text → Matched Text → Bool
is_kept previous_kept target (ok t) = t == target
is_kept previous_kept target (err _) = previous_kept

unfoldable pub filter_from : Bool → Text → List Text → List Text
unfolding log_target
filter_from previous_kept target [] = []
filter_from previous_kept target (line ∷ lines) =
    let kept = is_kept previous_kept target (log_target line) in
    keep_if kept line (filter_from kept target lines)

unfoldable pub filter_lines_by_target : List Text → Text → List Text
unfolding filter_from
filter_lines_by_target lines target = filter_from false target lines

-- `split('\n')`, as the lines that an end of line closes and what comes after the last one.
abbrev pub cons_first : ℕ → List Text × Text → List Text × Text
cons_first c ([], rest) = ([], c ∷ rest)
cons_first c (line ∷ lines, rest) = ((c ∷ line) ∷ lines, rest)

abbrev pub close_line : List Text × Text → List Text × Text
close_line (lines, rest) = ([] ∷ lines, rest)

unfoldable pub split_lines : Text → List Text × Text
split_lines [] = ([], [])
split_lines (c ∷ s) =
    let parts = split_lines s in if c == 10 then close_line parts else cons_first c parts

abbrev pub all_lines : List Text × Text → List Text
all_lines (lines, rest) = if is_empty rest then lines else lines ++ rest ∷ []

unfoldable pub tail_lines : Text → ℕ → List Text
unfolding split_lines
tail_lines content count =
    let lines = all_lines (split_lines content) in
    if leb (length lines) count then lines else drop (length lines - count) lines

unfoldable pub grep_lines : List Text → Text → List Text
unfolding includes
grep_lines lines pattern = filter (λ line. includes line pattern) lines

-- `TextDecoder` with `{ stream: true }`: what it keeps of an unfinished character, and its text.
pub record Decoder (S : Type 0) : Type 0 where
  pub fresh : S
  pub decode : S → List ℕ → S × Text

pub record Follower (S : Type 0) : Type 0 where
  pub offset : ℕ
  pub partial : Text
  pub decoder : S

pub record Stats : Type 0 where
  pub size : ℕ
  pub ino : ℕ

-- One call of `onChange`: the two states of the file, and what `openSync` and `readSync` meet, the
-- bytes of the file then and the number that is read at most.
pub record Change : Type 0 where
  pub curr : Stats
  pub prev : Stats
  pub read : Option (List ℕ × ℕ)

abbrev pub is_replaced : Change → ℕ → Bool
is_replaced x offset =
    ltb x.curr.size x.prev.size || ltb x.curr.size offset || not (x.curr.ino == x.prev.ino)

abbrev pub restarted : {S : Type 0} → Decoder S → Follower S
restarted d = record { offset = 0; partial = []; decoder = d.fresh }

abbrev pub non_empty : Text → Bool
non_empty line = not (is_empty line)

abbrev pub read_bytes : ℕ → ℕ → List ℕ × ℕ → List ℕ
read_bytes offset size (bytes, n) = take n (take (size - offset) (drop offset bytes))

abbrev pub received : {S : Type 0} → Follower S → List ℕ → S × Text → Follower S × List Text
received f bytes (s, decoded) =
    let (lines, rest) = split_lines (f.partial ++ decoded) in
    (
      record { offset = f.offset + length bytes; partial = rest; decoder = s },
      filter non_empty lines,
    )

abbrev pub on_read :
    {S : Type 0} → Decoder S → Follower S → ℕ → Option (List ℕ × ℕ) → Follower S × List Text
on_read d f size none = (f, [])
on_read d f size (some r) =
    let bytes = read_bytes f.offset size r in received f bytes (d.decode f.decoder bytes)

abbrev pub on_current : {S : Type 0} → Decoder S → Change → Follower S → Follower S × List Text
on_current d x f = if x.curr.size == f.offset then (f, []) else on_read d f x.curr.size x.read

-- `onChange(curr, prev)`: the follower after it, and the lines that it hands to `onLine`.
unfoldable pub on_change : {S : Type 0} → Decoder S → Change → Follower S → Follower S × List Text
unfolding split_lines
on_change d x f = on_current d x (if is_replaced x f.offset then restarted d else f)

unfoldable pub follow : {S : Type 0} → Decoder S → List Change → Follower S → Follower S × List Text
unfolding on_change
follow d [] f = (f, [])
follow d (x ∷ xs) f =
    let (f', lines) = on_change d x f in let (f'', more) = follow d xs f' in (f'', lines ++ more)
