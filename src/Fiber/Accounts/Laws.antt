-- ===== src/Fiber/Accounts/Laws.antt =====
-- Key material is provisioned once and never replaced.
use mathlib.Core.Path.{subst}
use offckb.Base.{
  ℕ, ◌≡◌, inl, inr, refl, sym, ap, ◌∙◌, Bool, true, false, Option, none, some, List, ok,
  Result-cases, ok-injective,
}
use offckb.Base.Text.{Text}
use offckb.Fiber.Accounts.{
  BuiltinAccount, fiber_node_account, KeyFiles, without_prefix, provision, ensure_files,
  ensure_node_key_material,
}

-- What is so after the key material was ensured.
abbrev pub IsProvisioned : List BuiltinAccount → ℕ → Text → KeyFiles → Bool × KeyFiles → Type 0
IsProvisioned accounts id random f (false, g) =
    (g ≡ f) × ((k : Text) × (s : Text) × (f.ckb_key ≡ some k) × (f.password ≡ some s))
IsProvisioned accounts id random f (true, g) =
    (f.ckb_key ≡ none)
    × (f.password ≡ none)
    × ((a : BuiltinAccount) × (fiber_node_account accounts id ≡ ok a)
        × (g.ckb_key ≡ some (without_prefix a.privkey))
        × (g.password ≡ some random))

ensure_files-IsProvisioned :
    (accounts : List BuiltinAccount) (id : ℕ) (random : Text) (f : KeyFiles)
    (key password : Option Text) (r : Bool × KeyFiles)
    → f.ckb_key ≡ key
    → f.password ≡ password
    → ensure_files accounts id random f key password ≡ ok r
    → IsProvisioned accounts id random f r
ensure_files-IsProvisioned accounts id random f (some k) (some s) r has_key has_password h =
    subst (IsProvisioned accounts id random f) (ok-injective (false, f) r h)
      (refl, (k, s, has_key, has_password))
ensure_files-IsProvisioned accounts id random f (some k) none r has_key has_password h = cc
ensure_files-IsProvisioned accounts id random f none (some s) r has_key has_password h = cc
ensure_files-IsProvisioned accounts id random f none none r has_key has_password h =
    elim (Result-cases (fiber_node_account accounts id)) [
      | inl (a, found) ↦
          subst (IsProvisioned accounts id random f)
            (ok-injective
              (true, record { ckb_key = some (without_prefix a.privkey); password = some random }) r
              (ap (provision random) (sym found) ∙ h))
            (has_key, has_password, (a, found, refl, refl))
      | inr (x, missing) ↦ cc (ap (provision random) (sym missing) ∙ h)
    ]

-- When the key material of a node is ensured, either both files were there and stay as they were, or
-- neither was there and they now hold the key of the account of the node and the new password.
pub ensure_node_key_material-IsProvisioned :
    (accounts : List BuiltinAccount) (id : ℕ) (random : Text) (f : KeyFiles) (r : Bool × KeyFiles)
    → ensure_node_key_material accounts id random f ≡ ok r
    → IsProvisioned accounts id random f r
unfolding ensure_node_key_material
ensure_node_key_material-IsProvisioned accounts id random f r h =
    ensure_files-IsProvisioned accounts id random f f.ckb_key f.password r refl refl h
