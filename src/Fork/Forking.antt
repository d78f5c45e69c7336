-- ===== src/Fork/Forking.antt =====
-- `forkDevnet` of src/devnet/fork.ts and the checks that it calls. What the file system and the
-- programs that are run answer is input.
pub mod Laws
use offckb.Base.{
  ℕ, zero, suc, Bool, true, false, not, ◌&&◌, ◌||◌, Option, none, some, List, [], ◌∷◌,
  if◌then◌else◌, eqb, ◌==◌, text_eq, Result, ok, err, ◌>>=◌, ◌>>◌, guard,
}
use offckb.Base.Text.{Text}
use offckb.Value.{Value, Fields}
use offckb.Fiber.EnvLock.{Signal}
use offckb.Fork.{
  ForkSource, custom, PidReader, StoppedError, assert_offckb_devnet_stopped,
  detect_source_from_ckb_toml, patch_dev_spec_for_fork,
}
use offckb.Fork.Genesis.{
  parse_genesis_hash_from_init_output, parse_genesis_hash_from_list_hashes, expected_genesis_hash,
  identified_chain,
}

pub record ForkOptions : Type 0 where
  pub has_from : Bool
  pub source : Option ForkSource
  pub has_spec_file : Bool
  pub force : Bool
  pub migrate : Bool
  pub dry_run : Bool

pub data ForkError : Type 0 where
  no_from no_source_dir no_source_db source_running unknown_source install_failed : ForkError
  migration_check_failed spec_file_missing download_failed init_failed no_genesis : ForkError
  genesis_mismatch different_chain needs_migration devnet_exists remove_failed : ForkError
  copy_failed spec_changed spec_failed align_failed migrate_failed state_failed : ForkError
  rollback_failed : ForkError
  not_stopped : StoppedError → ForkError

pub record Answers : Type 0 where
  pub source_exists : Bool
  pub source_has_db : Bool
  pub source_running : Option Bool
  -- the parse of the source's ckb.toml, if it is there and can be parsed
  pub source_config : Option Value
  pub installed : Bool
  -- how `ckb migrate --check` ends: `none` if it cannot be run, and no code for a signal
  pub migration_check : Option (Option ℕ)
  pub spec_file_exists : Bool
  pub spec_cached : Bool
  pub spec_downloaded : Bool
  -- what `ckb init` and `ckb list-hashes` print, where `none` is an exception
  pub preflight_output : Option Text
  pub source_hashes : Option Text
  pub pid_reader : PidReader
  pub signals : ℕ → Signal
  pub devnet_running : Option Bool
  pub pid_file : Option Text
  pub removes_existing : Bool
  pub copies : Bool
  pub init_output : Option Text
  pub dev_spec : Option Fields
  pub spec_written : Bool
  pub aligned : Bool
  pub migrated : Bool
  pub state_written : Bool
  pub rolls_back : Bool

-- `migrationNeededFromExitCode`
unfoldable pub migration_needed_from_exit_code : Option ℕ → Result ForkError Bool
migration_needed_from_exit_code none = err migration_check_failed
migration_needed_from_exit_code (some code) =
    if eqb code 0 then ok true else if eqb code 64 then ok false else err migration_check_failed

-- `isDatabaseMigrationNeeded`
abbrev pub is_database_migration_needed : Option (Option ℕ) → Result ForkError Bool
is_database_migration_needed none = err migration_check_failed
is_database_migration_needed (some status) = migration_needed_from_exit_code status

-- `resolveSpecFile`
unfoldable pub resolve_spec_file : ForkOptions → Answers → Result ForkError (Unit {0})
resolve_spec_file o a =
    if o.has_spec_file
    then guard a.spec_file_exists spec_file_missing
    else guard (a.spec_cached || a.spec_downloaded) download_failed

abbrev pub or_detected : Option ForkSource → Option ForkSource → Option ForkSource
or_detected (some source) detected = some source
or_detected none detected = detected

abbrev pub declared_source : ForkOptions → Answers → Option ForkSource
declared_source o a = or_detected o.source (detect_source_from_ckb_toml a.source_config)

abbrev pub is_known : Option ForkSource → Bool
is_known none = false
is_known (some source) = true

abbrev pub is_running : Option Bool → Bool
is_running (some running) = running
is_running none = false

abbrev pub parsed_genesis : Option Text → Result ForkError Text
parsed_genesis none = err no_genesis
parsed_genesis (some hash) = ok hash

abbrev pub genesis_of_init : Option Text → Result ForkError Text
genesis_of_init none = err init_failed
genesis_of_init (some output) = parsed_genesis (parse_genesis_hash_from_init_output output)

abbrev pub chosen : Option ForkSource → Text → ForkSource
chosen (some source) hash = source
chosen none hash = identified_chain hash

-- Whether a hash is the one that is asked for, if one is.
abbrev pub agrees : Option Text → Text → Bool
agrees none hash = true
agrees (some expected) hash = hash == expected

abbrev pub source_genesis : Option Text → Option Text
source_genesis none = none
source_genesis (some output) = parse_genesis_hash_from_list_hashes output

pub record Preflight : Type 0 where
  pub source : ForkSource
  pub genesis_hash : Text
  pub migration_needed : Bool

-- `validateForkSpec`
unfoldable pub validate_fork_spec :
    Answers → Option ForkSource → Result ForkError (ForkSource × Text)
unfolding parse_genesis_hash_from_init_output parse_genesis_hash_from_list_hashes
    expected_genesis_hash identified_chain
validate_fork_spec a declared = do
  hash ← genesis_of_init a.preflight_output
  guard (agrees (expected_genesis_hash (chosen declared hash)) hash) genesis_mismatch
  guard (agrees (source_genesis a.source_hashes) hash) different_chain
  ok (chosen declared hash, hash)

-- All that comes before the first change.
unfoldable pub preflight : ForkOptions → Answers → Result ForkError Preflight
unfolding resolve_spec_file validate_fork_spec migration_needed_from_exit_code
    detect_source_from_ckb_toml
preflight o a = do
  guard o.has_from no_from
  guard a.source_exists no_source_dir
  guard a.source_has_db no_source_db
  guard (not (is_running a.source_running)) source_running
  guard (is_known (declared_source o a) || o.has_spec_file) unknown_source
  guard a.installed install_failed
  needed ← is_database_migration_needed a.migration_check
  resolve_spec_file o a
  found ← validate_fork_spec a (declared_source o a)
  ok (record { source = found.0; genesis_hash = found.1; migration_needed = needed })

-- `ForkState`, as a fork writes it first.
pub record NewForkState : Type 0 where
  pub source : ForkSource
  pub genesis_hash : Text
  pub first_run_pending : Bool
  pub database_migrated : Bool
  pub network_isolated : Bool

-- What stands at the path of the devnet: the devnet before, files without order, or the fork with
-- its chain specification and its state.
pub data Devnet : Type 0 where
  existing partial : Devnet
  forked : Fields → NewForkState → Devnet

abbrev pub spec_of : Option Fields → Result ForkError Fields
spec_of none = err spec_failed
spec_of (some spec) = ok spec

abbrev pub new_state : Preflight → Text → NewForkState
new_state p hash = record {
  source = p.source;
  genesis_hash = hash;
  first_run_pending = true;
  database_migrated = p.migration_needed;
  network_isolated = true;
}

-- The block under `try`.
unfoldable pub build : Answers → Preflight → Result ForkError Devnet
unfolding parse_genesis_hash_from_init_output patch_dev_spec_for_fork
build a p = do
  guard a.copies copy_failed
  hash ← genesis_of_init a.init_output
  guard (hash == p.genesis_hash) spec_changed
  spec ← spec_of a.dev_spec
  guard a.spec_written spec_failed
  guard a.aligned align_failed
  guard (not p.migration_needed || a.migrated) migrate_failed
  guard a.state_written state_failed
  ok (forked (patch_dev_spec_for_fork spec p.source) (new_state p hash))

pub data Outcome : Type 0 where
  preflight_passed devnet_forked : Outcome

abbrev pub Forked : Type 0
Forked = Option Devnet × Result ForkError Outcome

-- The `catch` block leaves nothing behind, if it can.
abbrev pub rolled_back : Answers → Result ForkError Devnet → Forked
rolled_back a (ok devnet) = (some devnet, ok devnet_forked)
rolled_back a (err e) = if a.rolls_back then (none, err e) else (some partial, err rollback_failed)

abbrev pub replace : ForkOptions → Answers → Preflight → Option Devnet → Forked
replace o a p none = rolled_back a (build a p)
replace o a p (some devnet) =
    if o.force
    then (if a.removes_existing
        then rolled_back a (build a p)
        else (some partial, err remove_failed))
    else (some devnet, err devnet_exists)

abbrev pub when_stopped :
    ForkOptions → Answers → Preflight → Option Devnet → Result StoppedError (Unit {0}) → Forked
when_stopped o a p before (err e) = (before, err (not_stopped e))
when_stopped o a p before (ok u) =
    if p.migration_needed && not o.migrate
    then (before, err needs_migration)
    else replace o a p before

abbrev pub after_preflight :
    ForkOptions → Answers → Option Devnet → Result ForkError Preflight → Forked
after_preflight o a before (err e) = (before, err e)
after_preflight o a before (ok p) =
    if o.dry_run
    then (before, ok preflight_passed)
    else when_stopped o a p before
        (assert_offckb_devnet_stopped a.pid_reader a.signals a.devnet_running a.pid_file)

-- `forkDevnet`: what stands at the path afterwards, and the outcome.
unfoldable pub fork_devnet : ForkOptions → Answers → Option Devnet → Forked
unfolding preflight build assert_offckb_devnet_stopped
fork_devnet o a before = after_preflight o a before (preflight o a)
