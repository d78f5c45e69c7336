-- ===== src/Fork/Tests.antt =====
-- Small forks.
use offckb.Base.{list_eqb, ok}
use offckb.Base.Text.{trim_start, is_space, lower, lower_unit, is_digit}
use offckb.Value.Paths.{get_key}
use offckb.Validators.{is_hex}
use offckb.Chain.Lines.{after_prefix}
use offckb.Fork.{detect_source_from_ckb_toml}
use offckb.Fork.Genesis.{
  parse_genesis_hash_from_init_output, hex_digits, expected_genesis_hash, identified_chain,
  mainnet_genesis_hash, testnet_genesis_hash,
}
use offckb.Fork.Forking.{
  preflight, resolve_spec_file, validate_fork_spec, migration_needed_from_exit_code, build,
  devnet_forked,
}
use offckb.Base.{
  ℕ, zero, suc, ◌++◌, false, ◌≡◌, ◌↔◌, refl, true, false, Option, none, some, [], ◌∷◌, text_eq, ok,
  arith,
}
use offckb.Base.Text.{Text, text}
use offckb.Value.{ℤ, pos, integer, end}
use offckb.Fiber.EnvLock.{Signal, denied, no_process, is_process_alive}
use offckb.Fork.{
  mainnet, PidReader, assert_offckb_devnet_stopped, ForkState, validate_mainnet_fork_signing,
}
use offckb.Fork.Forking.{ForkOptions, Answers, fork_devnet}
use offckb.Fork.Forking.Laws.{Leaves, fork_devnet-Leaves}
use offckb.Fork.{patch_dev_spec_for_fork}
use offckb.Fork.Patches.{IsPatched, patch_dev_spec_for_fork_lem}
use offckb.Value.{Fields, field, str, obj}
use offckb.Fork.Guards.{
  MaySign, assert_offckb_devnet_stopped-denied, validate_mainnet_fork_signing_iff,
}

-- Each PID file names process 7, which belongs to another user.
abbrev seven : PidReader
seven = record { number = λ _. integer (pos 7); json_pid = λ _. none }

abbrev all_denied : ℕ → Signal
all_denied = λ _. denied

assert_offckb_devnet_stopped-denied_example :
    (assert_offckb_devnet_stopped seven all_denied none (some (text "7")) ≡ ok tt)
    × (is_process_alive all_denied 7 ≡ none)
assert_offckb_devnet_stopped-denied_example =
    assert_offckb_devnet_stopped-denied seven all_denied none (some (text "7")) 7
      (λ h. absurd (ground (arith, h))) refl (λ h. absurd (omega (arith, h))) refl

abbrev small_fork : ForkState
small_fork = record { source = mainnet; fork_block_number = some (text "9") }

abbrev nine : Text → Option ℤ
nine = λ _. some (pos 9)

validate_mainnet_fork_signing_iff_example :
    (validate_mainnet_fork_signing nine
        (text "0xAB" ∷ [])
        true
        (some small_fork)
        (text " 0xab")
        false
      ≡ ok (some 9))
    ↔ MaySign nine (text "0xAB" ∷ []) true (some small_fork) (text " 0xab") false (some 9)
validate_mainnet_fork_signing_iff_example =
    validate_mainnet_fork_signing_iff nine (text "0xAB" ∷ []) true (some small_fork) (text " 0xab")
      false (some 9)

-- A custom chain, whose fork succeeds.
abbrev zeros : ℕ → Text
zeros zero = []
zeros (suc n) = b'0' ∷ zeros n

abbrev small_output : Text
small_output = text "Genesis Hash: 0x" ++ zeros 64

abbrev small_options : ForkOptions
small_options = record {
  has_from = true;
  source = none;
  has_spec_file = true;
  force = false;
  migrate = false;
  dry_run = false;
}

abbrev small_answers : Answers
small_answers = record {
  source_exists = true;
  source_has_db = true;
  source_running = some false;
  source_config = none;
  installed = true;
  migration_check = some (some 64);
  spec_file_exists = true;
  spec_cached = false;
  spec_downloaded = false;
  preflight_output = some small_output;
  source_hashes = none;
  pid_reader = seven;
  signals = λ _. no_process;
  devnet_running = none;
  pid_file = none;
  removes_existing = true;
  copies = true;
  init_output = some small_output;
  dev_spec = some end;
  spec_written = true;
  aligned = true;
  migrated = true;
  state_written = true;
  rolls_back = true;
}

small_fork_succeeds : (fork_devnet small_options small_answers none).1 ≡ ok devnet_forked
unfolding fork_devnet preflight resolve_spec_file validate_fork_spec migration_needed_from_exit_code
    build detect_source_from_ckb_toml get_key assert_offckb_devnet_stopped
    parse_genesis_hash_from_init_output hex_digits after_prefix trim_start is_space lower lower_unit
    text is_hex is_digit expected_genesis_hash identified_chain mainnet_genesis_hash
    testnet_genesis_hash list_eqb
small_fork_succeeds = refl

fork_devnet-Leaves_example :
    Leaves small_options small_answers none (fork_devnet small_options small_answers none)
fork_devnet-Leaves_example = fork_devnet-Leaves small_options small_answers none

-- A specification with an engine and a parameter of its own.
abbrev small_spec : Fields
small_spec = field (text "name") (str (text "ckb")) (
    field (text "params") (obj (field (text "cellbase_maturity") (str (text "4")) end))
      (field (text "pow") (obj (field (text "func") (str (text "Eaglesong")) end)) end))

patch_dev_spec_for_fork_lem_example :
    IsPatched small_spec mainnet (text "name") (patch_dev_spec_for_fork small_spec mainnet)
patch_dev_spec_for_fork_lem_example = patch_dev_spec_for_fork_lem small_spec mainnet (text "name")
