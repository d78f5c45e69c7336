-- ===== src/Validators.antt =====
-- Checks of what a user types or a tool prints: `normalizePrivKey` and `validateUdtAmount` of
-- src/util/validator.ts, and `isVersionAtLeast` of src/tools/ckb-debugger-install.ts.
pub mod PrivateKeys
pub mod Versions
use mathlib.Core.List.{reverse}
use offckb.Base.{
  ℕ, zero, suc, ◌+◌, ◌-◌, ◌*◌, ◌^◌, Bool, true, false, not, ◌&&◌, ◌||◌, Option, none, some, List,
  [], ◌∷◌, ◌++◌, if◌then◌else◌, eqb, leb, ltb, ◌==◌, nat_eq, length, drop, every, Result, ok, err,
  ◌>>=◌, ◌>>◌, guard,
}
use offckb.Base.Text.{Text, text, trim, starts_with, ends_with, is_empty, is_digit}

pub data KeyError : Type 0 where
  required not_hexadecimal bad_length : KeyError

-- `[0-9a-fA-F]`
unfoldable pub is_hex : ℕ → Bool
unfolding is_digit
is_hex c = is_digit c || (leb b'a' c && leb c b'f') || (leb b'A' c && leb c b'F')

-- `s.slice(1, -1)`
abbrev pub but_last : Text → Text
but_last [] = []
but_last (c ∷ []) = []
but_last (c ∷ d ∷ s) = c ∷ but_last (d ∷ s)

abbrev pub inner : Text → Text
inner s = but_last (drop 1 s)

abbrev pub strip_quotes : ℕ → Text → Text
strip_quotes q key = if starts_with key (q ∷ []) && ends_with key (q ∷ []) then inner key else key

-- `/^0x/i`
abbrev pub strip_prefix : Text → Text
strip_prefix (a ∷ b ∷ s) = if a == b'0' && (b == b'x' || b == b'X') then s else a ∷ b ∷ s
strip_prefix s = s

abbrev pub checked_key : Text → Result KeyError Text
checked_key key = do
  guard (not (is_empty key) && every is_hex key) not_hexadecimal
  guard (length key == 64) bad_length
  ok (b'0' ∷ b'x' ∷ key)

unfoldable pub normalize_priv_key : Text → Result KeyError Text
unfolding is_hex starts_with ends_with trim
normalize_priv_key priv_key =
    let key = trim priv_key in
    if is_empty key
    then err required
    else checked_key (strip_prefix (trim (strip_quotes b'\'' (strip_quotes b'"' key))))

pub data AmountError : Type 0 where
  not_decimal zero_amount exceeds_128_bits : AmountError

-- `BigInt(text)` of decimal digits.
unfoldable pub digits_value : ℕ → Text → ℕ
digits_value acc [] = acc
digits_value acc (c ∷ s) = digits_value (acc * 10 + (c - b'0')) s

unfoldable pub validate_udt_amount : Text → Result AmountError ℕ
unfolding digits_value is_digit
validate_udt_amount amount = do
  guard (not (is_empty amount) && every is_digit amount) not_decimal
  guard (not (digits_value 0 amount == 0)) zero_amount
  guard (leb (digits_value 0 amount) (2 ^ 128 - 1)) exceeds_128_bits
  ok (digits_value 0 amount)

-- What the pattern of a version takes off a text, at its start.
pub record Version : Type 0 where
  pub major : ℕ
  pub minor : ℕ
  pub patch : ℕ
  pub prerelease : Bool

abbrev pub digits_of : Text → Text × Text
digits_of [] = ([], [])
digits_of (c ∷ s) = let (a, r) = digits_of s in if is_digit c then (c ∷ a, r) else ([], c ∷ s)

-- `(\d+)`
abbrev pub segment_of : Text × Text → Option (ℕ × Text)
segment_of ([], s) = none
segment_of (c ∷ a, s) = some (digits_value 0 (c ∷ a), s)

abbrev pub after_dot : Text → Option Text
after_dot [] = none
after_dot (c ∷ s) = if c == b'.' then some s else none

-- `[0-9A-Za-z.]`
unfoldable pub is_suffix_unit : ℕ → Bool
unfolding is_digit
is_suffix_unit c =
    is_digit c || (leb b'A' c && leb c b'Z') || (leb b'a' c && leb c b'z') || c == b'.'

-- `(-[0-9A-Za-z.]+)?`
abbrev pub has_suffix : Text → Bool
has_suffix (c ∷ d ∷ _) = c == b'-' && is_suffix_unit d
has_suffix _ = false

abbrev pub with_patch : ℕ → ℕ → Option (ℕ × Text) → Option Version
with_patch major minor none = none
with_patch major minor (some (patch, s)) =
    some (record { major = major; minor = minor; patch = patch; prerelease = has_suffix s })

abbrev pub with_minor : ℕ → Option (ℕ × Text) → Option Version
with_minor major none = none
with_minor major (some (minor, s)) = elim (after_dot s) [
  | none ↦ none
  | some r ↦ with_patch major minor (segment_of (digits_of r))
]

abbrev pub with_major : Option (ℕ × Text) → Option Version
with_major none = none
with_major (some (major, s)) = elim (after_dot s) [
  | none ↦ none
  | some r ↦ with_minor major (segment_of (digits_of r))
]

unfoldable pub parse_version : Text → Option Version
unfolding is_suffix_unit trim
parse_version v = with_major (segment_of (digits_of (trim v)))

-- The loop over the three segments, and the pre-releases.
unfoldable pub at_least : Version → Version → Bool
at_least a b =
    if not (a.major == b.major)
    then ltb b.major a.major
    else if not (a.minor == b.minor)
    then ltb b.minor a.minor
    else if not (a.patch == b.patch)
    then ltb b.patch a.patch
    else (if a.prerelease then b.prerelease else true)

abbrev pub both_at_least : Option Version → Option Version → Bool
both_at_least (some a) (some b) = at_least a b
both_at_least _ _ = false

unfoldable pub is_version_at_least : Text → Text → Bool
unfolding parse_version at_least
is_version_at_least version min_version =
    both_at_least (parse_version version) (parse_version min_version)
