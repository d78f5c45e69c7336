-- ===== src/Validators/PrivateKeys.antt =====
-- Private keys in their normal form.
use mathlib.Core.Path.{subst}
use mathlib.Core.List.{reverse, reverse-cons, reverse-reverse}
use offckb.Base.{
  ℕ, ◌≡◌, inl, inr, refl, sym, ap, ◌∙◌, true, false, [], ◌∷◌, length, All, All-append, every,
  Bool-cases, ok, arith,
}
use offckb.Base.Text.{Text, is_digit, is_empty, is_space, trim, trim_start, starts_with, ends_with}
use offckb.Validators.{is_hex, strip_quotes, strip_prefix, checked_key, normalize_priv_key}

-- 0x and 32 bytes in hexadecimal digits.
pub IsPrivateKey : Text → Type 0
IsPrivateKey key =
    (digits : Text) × (key ≡ b'0' ∷ b'x' ∷ digits)
    × (every is_hex digits ≡ true)
    × (length digits ≡ 64)

checked_key-IsPrivateKey : (s key : Text) → checked_key s ≡ ok key → IsPrivateKey key
unfolding IsPrivateKey
checked_key-IsPrivateKey s key h = (s, ground (arith, h), ground (arith, h), ground (arith, h))

checked_key-digits :
    (digits : Text)
    → every is_hex digits ≡ true
    → length digits ≡ 64
    → checked_key digits ≡ ok (b'0' ∷ b'x' ∷ digits)
checked_key-digits [] h l = absurd (omega (arith, l))
checked_key-digits (c ∷ s) h l = ground (arith, h, l)

IsBlack : ℕ → Type 0
IsBlack c = is_space c ≡ false

trim_start_black : (s : Text) → All IsBlack s → trim_start s ≡ s
unfolding trim_start IsBlack
trim_start_black [] h = refl
trim_start_black (c ∷ s) h = rw h.0 refl

reverse-All : (s : Text) → All IsBlack s → All IsBlack (reverse s)
reverse-All [] h = tt
reverse-All (c ∷ s) h =
    subst (All IsBlack) (sym (reverse-cons c s))
      (All-append IsBlack (reverse s) (c ∷ []) (reverse-All s h.1) (h.0, tt))

trim_black : (s : Text) → All IsBlack s → trim s ≡ s
unfolding trim
trim_black s h =
    ap (λ t. reverse (trim_start (reverse t))) (trim_start_black s h)
    ∙ ap reverse (trim_start_black (reverse s) (reverse-All s h))
    ∙ reverse-reverse s

hex-IsBlack : (c : ℕ) → is_hex c ≡ true → IsBlack c
unfolding is_hex is_digit is_space IsBlack
hex-IsBlack c h = ground (arith, h)

digits-AreBlack : (s : Text) → every is_hex s ≡ true → All IsBlack s
digits-AreBlack [] h = tt
digits-AreBlack (c ∷ s) h =
    (hex-IsBlack c (ground (arith, h)), digits-AreBlack s (ground (arith, h)))

-- A key in normal form goes through as it is.
normal-kept :
    (digits : Text)
    → every is_hex digits ≡ true
    → length digits ≡ 64
    → normalize_priv_key (b'0' ∷ b'x' ∷ digits) ≡ ok (b'0' ∷ b'x' ∷ digits)
unfolding normalize_priv_key IsBlack is_space starts_with
normal-kept digits hex long =
    let key = b'0' ∷ b'x' ∷ digits in
    let black : trim key ≡ key = trim_black key (refl, (refl, digits-AreBlack digits hex)) in
    let kept = ap (λ t. checked_key (strip_prefix t)) black ∙ checked_key-digits digits hex long in
    rw black kept

-- What is accepted as a private key is given as 0x and 64 hexadecimal digits, and a key in that
-- form is accepted and given as it is.
pub normalize_priv_key-normal :
    (text key : Text)
    → ((normalize_priv_key text ≡ ok key) → IsPrivateKey key)
      × (IsPrivateKey key → normalize_priv_key key ≡ ok key)
unfolding normalize_priv_key IsPrivateKey starts_with ends_with
normalize_priv_key-normal text key = (
  λ h. elim (Bool-cases (is_empty (trim text))) [
    | inl b ↦ absurd (ground (arith, h, b))
    | inr b ↦
        checked_key-IsPrivateKey
          (strip_prefix (trim (strip_quotes b'\'' (strip_quotes b'"' (trim text))))) key
          (ground (arith, h, b))
  ],
  λ (digits, form, hex, long).
      ap normalize_priv_key form ∙ normal-kept digits hex long ∙ ap ok (sym form),
)
