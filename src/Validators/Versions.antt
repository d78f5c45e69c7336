-- ===== src/Validators/Versions.antt =====
-- Versions in order, and the amounts that fit.
use mathlib.Core.Option.{some-injective}
use mathlib.Core.Path.{subst}
use offckb.Base.{
  Bool-cases, ℕ, ◌^◌, ◌<◌, ◌≡◌, ◌⊎◌, ◌↔◌, inl, inr, refl, true, false, Option, none, some, every,
  ok, arith,
}
use offckb.Base.Text.{Text, is_digit, is_empty}
use offckb.Validators.{
  Version, at_least, both_at_least, parse_version, is_version_at_least, digits_value,
  validate_udt_amount,
}

-- The order of the releases: by the three numbers, and a pre-release before its release.
abbrev pub IsOlder : Version → Version → Type 0
IsOlder a b =
    (a.major < b.major)
    ⊎ (a.major ≡ b.major)
      × ((a.minor < b.minor)
          ⊎ (a.minor ≡ b.minor)
            × ((a.patch < b.patch)
                ⊎ (a.patch ≡ b.patch) × (a.prerelease ≡ true) × (b.prerelease ≡ false)))

at_least_iff : (a b : Version) → (at_least a b ≡ false) ↔ IsOlder a b
unfolding at_least
at_least_iff a b = ground arith

both_at_least_iff :
    (o o' : Option Version)
    → (both_at_least o o' ≡ true)
      ↔ ((a : Version) × (b : Version) × (o ≡ some a) × (o' ≡ some b) × ((IsOlder a b) → ⊥))
both_at_least_iff none o' = (λ h. absurd (ground (arith, h)), λ (a, b, h, _, _). cc)
both_at_least_iff (some a) none = (λ h. absurd (ground (arith, h)), λ (_, b, _, h, _). cc)
both_at_least_iff (some a) (some b) = (
  λ h. (a, b, refl, refl, λ older. absurd (ground (arith, h, (at_least_iff a b).1 older))),
  λ (x, y, e, e', n). elim (Bool-cases (at_least a b)) [
    | inl recent ↦ recent
    | inr older ↦ absurd (
        n (
          subst (λ t. IsOlder t y) (some-injective a x e)
            (subst (λ t. IsOlder a t) (some-injective b y e') ((at_least_iff a b).0 older))))
  ],
)

-- A text that starts with a version is recent enough exactly when the required one starts with a
-- version too and the first is not older, in the order by numbers and not by letters.
pub is_version_at_least_iff :
    (version min_version : Text)
    → (is_version_at_least version min_version ≡ true) ↔ (
        (a : Version) × (b : Version) × (parse_version version ≡ some a)
        × (parse_version min_version ≡ some b)
        × ((IsOlder a b) → ⊥))
unfolding is_version_at_least
is_version_at_least_iff version min_version =
    both_at_least_iff (parse_version version) (parse_version min_version)

-- An amount is accepted exactly when it is written in decimal digits and its value is above zero
-- and fits 128 bits, and the value is the result.
pub validate_udt_amount_iff :
    (amount : Text) (n : ℕ)
    → (validate_udt_amount amount ≡ ok n)
      ↔ (is_empty amount ≡ false)
        × (every is_digit amount ≡ true)
        × (digits_value 0 amount ≡ n)
        × (0 < n)
        × (n < 2 ^ 128)
unfolding validate_udt_amount
validate_udt_amount_iff amount n = ground arith
