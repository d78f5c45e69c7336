-- ===== src/Fork.antt =====
-- Devnets that are forked from a public chain: the patches of src/devnet/fork.ts to the chain
-- specification and the configuration, its check that the devnet has stopped, and the guard of
-- src/util/fork-safety.ts before a transaction is signed.
pub mod Patches
pub mod Guards
pub mod Genesis
pub mod Forking
mod Tests
use offckb.Base.{
  ℕ, zero, suc, Bool, true, false, not, ◌&&◌, ◌||◌, Option, none, some, List, [], ◌∷◌, map,
  if◌then◌else◌, ◌==◌, text_eq, Result, ok, err, ◌>>=◌, ◌>>◌, guard,
}
use offckb.Base.Text.{Text, text, trim, lower, contains, includes, decimal}
use offckb.Value.{
  ℤ, pos, negsuc, Number, integer, Value, null, bool, num, str, arr, obj, Items, nil, cons, Fields,
  end, field, lookup, insert, remove,
}
use offckb.Value.Paths.{get_key}
use offckb.Fiber.EnvLock.{Signal, delivered, no_process, denied, other_error}

pub data ForkSource : Type 0 where
  mainnet testnet custom : ForkSource

-- `{ ...(value ?? {}) }`: an array or a text gives its indices.
abbrev pub index_items : ℕ → Items → Fields
index_items i nil = end
index_items i (cons v vs) = field (decimal i) v (index_items (suc i) vs)

abbrev pub index_units : ℕ → Text → Fields
index_units i [] = end
index_units i (c ∷ s) = field (decimal i) (str (c ∷ [])) (index_units (suc i) s)

abbrev pub spread : Option Value → Fields
spread (some (obj fs)) = fs
spread (some (arr vs)) = index_items 0 vs
spread (some (str s)) = index_units 0 s
spread _ = end

abbrev pub mainnet_genesis_epoch_length : ℕ
mainnet_genesis_epoch_length = 1743

abbrev pub epoch_patched : ForkSource → Fields → Fields
epoch_patched mainnet params =
    insert (text "genesis_epoch_length") (num (integer (pos mainnet_genesis_epoch_length))) params
epoch_patched testnet params = remove (text "genesis_epoch_length") params
epoch_patched custom params = params

unfoldable pub patch_params : ForkSource → Fields → Fields
unfolding insert remove
patch_params source params = epoch_patched source (
    insert (text "permanent_difficulty_in_dummy") (bool true)
      (insert (text "cellbase_maturity") (num (integer (pos 0))) params))

unfoldable pub patch_dev_spec_for_fork : Fields → ForkSource → Fields
unfolding patch_params lookup insert
patch_dev_spec_for_fork spec source =
    insert (text "params") (obj (patch_params source (spread (lookup (text "params") spec)))) (
      insert (text "pow")
        (obj (insert (text "func") (str (text "Dummy")) (spread (lookup (text "pow") spec)))) spec)

unfoldable pub isolate_network : Fields → Fields
unfolding insert
isolate_network network = insert (text "discovery_local_address") (bool false) (
    insert (text "whitelist_only") (bool true) (
      insert (text "max_outbound_peers") (num (integer (pos 0)))
        (insert (text "bootnodes") (arr nil) network)))

unfoldable pub isolate_fork_ckb_config : Fields → Fields
unfolding isolate_network lookup insert
isolate_fork_ckb_config config =
    insert (text "logger")
      (obj (insert (text "filter") (str (text "warn")) (spread (lookup (text "logger") config))))
      (insert (text "network") (obj (isolate_network (spread (lookup (text "network") config))))
        config)

-- `parsed.chain.spec.bundled`, read in a document of `toml.parse`.
abbrev pub bundled_source : Option Value → Option ForkSource
bundled_source (some (str s)) =
    if includes s (text "mainnet")
    then some mainnet
    else if includes s (text "testnet")
    then some testnet
    else none
bundled_source _ = none

abbrev pub member : Text → Option Value → Option Value
member k none = none
member k (some v) = get_key k v

unfoldable pub detect_source_from_ckb_toml : Option Value → Option ForkSource
unfolding get_key includes
detect_source_from_ckb_toml parsed =
    bundled_source (member (text "bundled") (member (text "spec") (member (text "chain") parsed)))

-- `Number(text)`, and `Number(JSON.parse(text).pid)`, where `none` is an exception.
pub record PidReader : Type 0 where
  pub number : Text → Number
  pub json_pid : Text → Option Number

abbrev pub positive : Number → Option ℕ
positive (integer (pos (suc n))) = some (suc n)
positive _ = none

abbrev pub pid_or : Option ℕ → Option Number → Option ℕ
pid_or (some pid) json = some pid
pid_or none none = none
pid_or none (some n) = positive n

abbrev pub pid_in : PidReader → Option Text → Option ℕ
pid_in p none = none
pid_in p (some content) =
    let raw = trim content in pid_or (positive (p.number raw)) (p.json_pid raw)

pub data StoppedError : Type 0 where
  node_running : StoppedError
  daemon_running : ℕ → StoppedError

-- Each exception of `process.kill(pid, 0)` counts as a process that is gone.
abbrev pub kill_succeeds : Signal → Bool
kill_succeeds delivered = true
kill_succeeds _ = false

abbrev pub daemon_check : (ℕ → Signal) → Option ℕ → Result StoppedError (Unit {0})
daemon_check signals none = ok tt
daemon_check signals (some pid) = guard (not (kill_succeeds (signals pid))) (daemon_running pid)

-- `assertOffckbDevnetStopped()`, with what `isCkbNodeRunningOn` answers and the daemon's PID file.
unfoldable pub assert_offckb_devnet_stopped :
    PidReader → (ℕ → Signal) → Option Bool → Option Text → Result StoppedError (Unit {0})
assert_offckb_devnet_stopped p signals (some true) pid_file = err node_running
assert_offckb_devnet_stopped p signals _ pid_file = daemon_check signals (pid_in p pid_file)

pub record ForkState : Type 0 where
  pub source : ForkSource
  pub fork_block_number : Option Text

pub data SigningError : Type 0 where
  external_key boundary_missing : SigningError
  boundary_invalid : Text → SigningError

abbrev pub mainnet_fork : Bool → Option ForkState → Option ForkState
mainnet_fork is_devnet none = none
mainnet_fork is_devnet (some fork) = elim fork.source [
  | mainnet ↦ if is_devnet then some fork else none
  | testnet ↦ none
  | custom ↦ none
]

abbrev pub boundary : Text → Option ℤ → Result SigningError (Option ℕ)
boundary t (some (pos n)) = ok (some n)
boundary t _ = err (boundary_invalid t)

-- `BUILT_IN_DEV_KEYS.has(privateKey.trim().toLowerCase())`
unfoldable pub is_built_in : List Text → Text → Bool
unfolding lower trim
is_built_in dev_keys private_key = contains (map lower dev_keys) (lower (trim private_key))

abbrev pub fork_boundary : (Text → Option ℤ) → Option Text → Result SigningError (Option ℕ)
fork_boundary big_int none = err boundary_missing
fork_boundary big_int (some t) = boundary t (big_int t)

abbrev pub signing_check :
    (Text → Option ℤ) → List Text → Text → Bool → Option ForkState → Result SigningError (Option ℕ)
signing_check big_int dev_keys key allowed none = ok none
signing_check big_int dev_keys key allowed (some fork) =
    guard (is_built_in dev_keys key || allowed) external_key
    >> fork_boundary big_int fork.fork_block_number

-- `validateMainnetForkSigning`: `big_int` is `BigInt(text)`, and `none` inside `ok` is `undefined`.
unfoldable pub validate_mainnet_fork_signing :
    (Text → Option ℤ)
    → List Text
    → Bool
    → Option ForkState
    → Text
    → Bool
    → Result SigningError (Option ℕ)
unfolding is_built_in
validate_mainnet_fork_signing big_int dev_keys is_devnet fork key allowed =
    signing_check big_int dev_keys key allowed (mainnet_fork is_devnet fork)
