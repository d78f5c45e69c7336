-- ===== src/Fiber/Accounts.antt =====
-- src/fiber/accounts.ts: the built-in accounts and the key material of a node. The key files are
-- what stands in them; the public key of a secret is computed by a third-party library.
pub mod Laws
use offckb.Base.{
  ℕ, zero, suc, Bool, true, false, not, ◌&&◌, Option, none, some, List, [], ◌∷◌, if◌then◌else◌, leb,
  length, take, get_elem?, eqb, ◌==◌, nat_eq, Result, ok, err, ◌>>=◌,
}
use offckb.Base.Text.{Text, text, trim, starts_with, lower}
use offckb.Fiber.Paths.{fiber_account_index, udt_issuer_account_index}
use offckb.Fiber.Manager.Checks.{LockScript}

pub record BuiltinAccount : Type 0 where
  pub privkey : Text
  pub pubkey : Text
  pub lock_script : LockScript
  pub address : Text

pub data AccountError : Type 0 where
  no_account : ℕ → AccountError
  incomplete_key_material : ℕ → AccountError
  password_unreadable : ℕ → AccountError

abbrev pub account_or : ℕ → Option BuiltinAccount → Result AccountError BuiltinAccount
account_or index none = err (no_account index)
account_or index (some a) = ok a

-- `getBuiltinAccount`
unfoldable pub get_builtin_account : List BuiltinAccount → ℕ → Result AccountError BuiltinAccount
get_builtin_account accounts index = account_or index (get_elem? accounts index)

unfoldable pub fiber_node_account : List BuiltinAccount → ℕ → Result AccountError BuiltinAccount
unfolding get_builtin_account fiber_account_index
fiber_node_account accounts id = get_builtin_account accounts (fiber_account_index id)

unfoldable pub udt_issuer_account : List BuiltinAccount → Result AccountError BuiltinAccount
unfolding get_builtin_account
udt_issuer_account accounts = get_builtin_account accounts udt_issuer_account_index

-- `readFiberNodeSecretKey`: the first 32 bytes.
unfoldable pub read_fiber_node_secret_key : Option (List ℕ) → Option (List ℕ)
read_fiber_node_secret_key none = none
read_fiber_node_secret_key (some bytes) =
    if leb 32 (length bytes) then some (take 32 bytes) else none

-- The files of a node that hold its CKB key and its password.
pub record KeyFiles : Type 0 where
  pub ckb_key : Option Text
  pub password : Option Text

-- `privkey.replace(/^0x/, '')`
unfoldable pub without_prefix : Text → Text
without_prefix (a ∷ b ∷ s) = if a == b'0' && b == b'x' then s else a ∷ b ∷ s
without_prefix s = s

abbrev pub provision :
    Text → Result AccountError BuiltinAccount → Result AccountError (Bool × KeyFiles)
provision random (err e) = err e
provision random (ok account) =
    ok (true, record { ckb_key = some (without_prefix account.privkey); password = some random })

abbrev pub ensure_files :
    List BuiltinAccount
    → ℕ
    → Text
    → KeyFiles
    → Option Text
    → Option Text
    → Result AccountError (Bool × KeyFiles)
ensure_files accounts id random f (some key) (some password) = ok (false, f)
ensure_files accounts id random f (some key) none = err (incomplete_key_material id)
ensure_files accounts id random f none (some password) = err (incomplete_key_material id)
ensure_files accounts id random f none none = provision random (fiber_node_account accounts id)

-- `ensureNodeKeyMaterial`, with the password that would be drawn: whether it was created, and the
-- files.
unfoldable pub ensure_node_key_material :
    List BuiltinAccount → ℕ → Text → KeyFiles → Result AccountError (Bool × KeyFiles)
unfolding fiber_node_account without_prefix
ensure_node_key_material accounts id random f =
    ensure_files accounts id random f f.ckb_key f.password

-- `readNodePassword`
unfoldable pub read_node_password : ℕ → KeyFiles → Result AccountError Text
unfolding trim
read_node_password id f = elim f.password [
  | none ↦ err (password_unreadable id)
  | some s ↦ ok (trim s)
]
