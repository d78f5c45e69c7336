-- ===== src/Logs/Filtering.antt =====
-- Which lines of a log are kept.
use offckb.Base.{
  ℕ, ◌-◌, ◌≤◌, ◌≡◌, inl, inr, refl, ap, ◌∙◌, Bool, true, false, List, [], ◌∷◌, ◌++◌, if◌then◌else◌,
  ◌==◌, text_eq, leb, length, drop, take, All, Bool-cases, ok, err, length-drop, take-append-drop,
  leb→le, length-append, arith,
}
use offckb.Base.Text.{Text}
use offckb.Logs.{
  log_target, keep_if, is_kept, filter_from, filter_lines_by_target, split_lines, all_lines,
  tail_lines,
}

-- A line that belongs to the entry above it, and one that starts an entry.
abbrev IsContinuation : Text → Type 0
IsContinuation line = log_target line ≡ err tt

abbrev StartsEntry : List Text → Type 0
StartsEntry [] = Unit
StartsEntry (line ∷ _) = (t : Text) × (log_target line ≡ ok t)

-- The flag after a part of the log.
flag_after : Bool → Text → List Text → Bool
flag_after kept target [] = kept
flag_after kept target (line ∷ lines) =
    flag_after (is_kept kept target (log_target line)) target lines

keep_if-append :
    (b : Bool) (x : Text) (xs ys : List Text) → keep_if b x (xs ++ ys) ≡ keep_if b x xs ++ ys
keep_if-append true x xs ys = refl
keep_if-append false x xs ys = refl

filter_from-append :
    (kept : Bool) (target : Text) (xs ys : List Text)
    → filter_from kept target (xs ++ ys)
      ≡ filter_from kept target xs ++ filter_from (flag_after kept target xs) target ys
unfolding filter_from flag_after
filter_from-append kept target [] ys = refl
filter_from-append kept target (x ∷ xs) ys =
    let b = is_kept kept target (log_target x) in
    ap (keep_if b x) (filter_from-append b target xs ys)
    ∙ keep_if-append b x (filter_from b target xs) (filter_from (flag_after b target xs) target ys)

whole :
    (kept : Bool) (x : Text) (xs : List Text)
    → keep_if kept x (if kept then xs else []) ≡ (if kept then x ∷ xs else [])
whole true x xs = refl
whole false x xs = refl

entry_block :
    (b : Bool) (x : Text) (block rest : List Text)
    → keep_if b x ((if b then block else []) ++ rest) ≡ (if b then x ∷ block else []) ++ rest
entry_block true x block rest = refl
entry_block false x block rest = refl

-- A block without an entry goes with the flag before it.
filter_from-block :
    (kept : Bool) (target : Text) (block : List Text)
    → All IsContinuation block
    → (filter_from kept target block ≡ (if kept then block else []))
      × (flag_after kept target block ≡ kept)
unfolding filter_from flag_after
filter_from-block kept target [] h = (ground arith, refl)
filter_from-block kept target (x ∷ xs) h =
    let (kept_lines, flag) = filter_from-block kept target xs h.1 in
    (rw h.0 (ap (keep_if kept x) kept_lines ∙ whole kept x xs), rw h.0 flag)

-- An entry takes no account of the lines above it.
filter_from-start :
    (a b : Bool) (target : Text) (lines : List Text)
    → StartsEntry lines
    → filter_from a target lines ≡ filter_from b target lines
unfolding filter_from
filter_from-start a b target [] h = refl
filter_from-start a b target (x ∷ xs) (t, h) = rw h refl

filter_from-entry :
    (kept : Bool) (target entry t : Text) (block rest : List Text)
    → log_target entry ≡ ok t
    → All IsContinuation block
    → StartsEntry rest
    → filter_from kept target (entry ∷ block ++ rest)
      ≡ (if t == target then entry ∷ block else []) ++ filter_from false target rest
unfolding filter_from
filter_from-entry kept target entry t block rest h hs next = rw h (
    ap (keep_if (t == target) entry) (
      filter_from-append (t == target) target block rest
      ∙ ap (λ xs. xs ++ filter_from (flag_after (t == target) target block) target rest)
          ((filter_from-block (t == target) target block hs).0)
      ∙ ap (λ xs. (if t == target then block else []) ++ xs)
          (filter_from-start (flag_after (t == target) target block) false target rest next))
    ∙ entry_block (t == target) entry block (filter_from false target rest))

-- The log is a first part, an entry with the lines that belong to it, which parse as no entry, and
-- the next entries. The entry and its lines are kept together when the entry has the target, and
-- dropped together when it has another one, whatever stands before and after. Lines that no entry
-- stands above are dropped.
pub filter_lines_by_target-entry :
    (target entry t : Text) (before block rest : List Text)
    → log_target entry ≡ ok t
    → All IsContinuation block
    → StartsEntry rest
    → (filter_lines_by_target (before ++ (entry ∷ block ++ rest)) target
        ≡ filter_lines_by_target before target
          ++ ((if t == target then entry ∷ block else []) ++ filter_lines_by_target rest target))
      × (filter_lines_by_target (block ++ rest) target ≡ filter_lines_by_target rest target)
unfolding filter_lines_by_target
filter_lines_by_target-entry target entry t before block rest h hs next = (
  filter_from-append false target before (entry ∷ block ++ rest)
      ∙ ap (λ xs. filter_from false target before ++ xs)
          (filter_from-entry (flag_after false target before) target entry t block rest h hs next),
  filter_from-append false target block rest
      ∙ ap (λ xs. xs ++ filter_from (flag_after false target block) target rest)
          ((filter_from-block false target block hs).0)
      ∙ filter_from-start (flag_after false target block) false target rest next,
)

-- The lines of a text, the last one with or without its end.
abbrev pub lines : Text → List Text
lines content = all_lines (split_lines content)

last_of :
    (xs : List Text) (count : ℕ)
    → (before : List Text) × (before
          ++ (if leb (length xs) count then xs else drop (length xs - count) xs)
        ≡ xs)
      × (length (if leb (length xs) count then xs else drop (length xs - count) xs) ≤ count)
      × (length before ≡ length xs - count)
last_of xs count = elim (Bool-cases (leb (length xs) count)) [
  | inl all ↦ rw all ([], refl, leb→le _ _ all, ground (arith, all))
  | inr some_before ↦ rw some_before (
    take (length xs - count) xs,
    take-append-drop (length xs - count) xs,
    ground (arith, length-drop (length xs - count) xs, some_before),
    ground (
      arith,
      length-append (take (length xs - count) xs) (drop (length xs - count) xs),
      ap length (take-append-drop (length xs - count) xs),
      length-drop (length xs - count) xs,
      some_before,
    ),
  )
]

-- The last lines of a log are no more than asked for, and with the lines before them they are all
-- lines of the log, in order: as many are left out as there are more than asked for.
pub tail_lines_lem :
    (content : Text) (count : ℕ)
    → (before : List Text) × (before ++ tail_lines content count ≡ lines content)
      × (length (tail_lines content count) ≤ count)
      × (length before ≡ length (lines content) - count)
unfolding tail_lines
tail_lines_lem content count = last_of (lines content) count
