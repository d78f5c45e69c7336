-- ===== src/Daemon/PidFiles.antt =====
-- `readPidFile`, `writePidFile`, `reservePidFile`, `resolveCliEntry` and `isProcessAlive` of
-- src/util/daemon.ts. The platform is a parameter: `JSON`, `Number`, `path` and the file system.
pub mod Laws
use offckb.Base.{ℕ, zero, suc, Bool, true, false, Option, none, some, List, [], ◌∷◌, if◌then◌else◌}
use offckb.Base.Text.{Text, text, trim, is_empty}
use offckb.Value.{
  ℤ, pos, Number, nan, integer, Value, null, num, str, Fields, end, field, obj, lookup,
}
use offckb.Value.Paths.{get_key}
use offckb.Fiber.EnvLock.{Signal, is_process_alive}

pub record Platform : Type 0 where
  -- `JSON.parse`, where `none` is an exception, and `JSON.stringify(v, null, 2)`
  pub parse : Text → Option Value
  pub print : Value → Text
  -- `Number` of a text and of a value
  pub to_number : Text → Number
  pub number_of : Option Value → Number
  -- `Date.parse` of a value, in milliseconds
  pub date_parse : Value → Number
  -- `path.resolve(p)`, `fs.realpathSync(p)`, `path.basename(p)`, and `statSync(p).isFile()`, where
  -- an exception is `false`
  pub resolve : Text → Text
  pub realpath : Text → Option Text
  pub basename : Text → Text
  pub is_file : Text → Bool
  -- `OFFCKB_CLI_PATH`, `process.argv[1]`, `require.main?.filename`, `process.execPath`
  pub cli_path : Option Text
  pub argv_script : Option Text
  pub main_filename : Option Text
  pub exec_path : Text

pub record PidMetadata : Type 0 where
  pub pid : Number
  pub script_path : Text
  pub started_at : Value
  pub status : Option Value

-- `Number.isInteger(n) && n > 0`
abbrev pub positive : Number → Option ℕ
positive (integer (pos (suc n))) = some (suc n)
positive _ = none

-- `new Date(0).toISOString()`
abbrev pub epoch : Value
epoch = str (text "1970-01-01T00:00:00.000Z")

abbrev pub sentinel : PidMetadata
sentinel = record { pid = nan; script_path = text ""; started_at = epoch; status = none }

-- The candidates that are texts and not empty, in order, with `path.resolve`.
unfoldable pub first_file : Platform → List (Option Text) → Option Text
first_file p [] = none
first_file p (none ∷ cs) = first_file p cs
first_file p (some [] ∷ cs) = first_file p cs
first_file p (some (c ∷ s) ∷ cs) =
    let rest = first_file p cs in
    if p.is_file (p.resolve (c ∷ s)) then some (p.resolve (c ∷ s)) else rest

unfoldable pub resolve_cli_entry : Platform → Option Text
unfolding first_file
resolve_cli_entry p = first_file p (p.cli_path ∷ p.argv_script ∷ p.main_filename ∷ [])

-- `resolveCliEntry() ?? ''`
abbrev pub or_empty : Option Text → Text
or_empty none = text ""
or_empty (some s) = s

-- `parsed.startedAt ?? new Date(0).toISOString()`
abbrev pub or_epoch : Option Value → Value
or_epoch none = epoch
or_epoch (some null) = epoch
or_epoch (some v) = v

abbrev pub metadata_of : Option ℕ → Option Value → Value → PidMetadata
metadata_of (some pid) (some (str script)) v = record {
  pid = integer (pos pid);
  script_path = script;
  started_at = or_epoch (get_key (text "startedAt") v);
  status = get_key (text "status") v;
}
metadata_of _ _ _ = sentinel

-- The block under `try`: a read of a member of `null` throws too.
abbrev pub read_metadata : Platform → Option Value → PidMetadata
read_metadata p none = sentinel
read_metadata p (some null) = sentinel
read_metadata p (some v) =
    metadata_of (positive (p.number_of (get_key (text "pid") v))) (get_key (text "scriptPath") v) v

abbrev pub read_plain : Platform → Text → Option ℕ → PidMetadata
read_plain p raw (some pid) = record {
  pid = integer (pos pid);
  script_path = or_empty (resolve_cli_entry p);
  started_at = epoch;
  status = none;
}
read_plain p raw none = read_metadata p (p.parse raw)

abbrev pub read_trimmed : Platform → Text → Option PidMetadata
read_trimmed p [] = none
read_trimmed p (c ∷ s) = some (read_plain p (c ∷ s) (positive (p.to_number (c ∷ s))))

-- `readPidFile` on what the file holds; `none` for a file that is missing or cannot be read.
unfoldable pub read_pid_file : Platform → Option Text → Option PidMetadata
unfolding resolve_cli_entry get_key lookup
read_pid_file p none = none
read_pid_file p (some raw) = read_trimmed p (trim raw)

-- A member that is `undefined` is left out by `JSON.stringify`.
abbrev pub status_member : Option Value → Fields
status_member none = end
status_member (some v) = field (text "status") v end

abbrev pub metadata_value : PidMetadata → Value
metadata_value m = obj (
    field (text "pid") (num m.pid) (
      field (text "scriptPath") (str m.script_path)
        (field (text "startedAt") m.started_at (status_member m.status))))

-- What `writePidFile` writes.
unfoldable pub write_pid_file : Platform → PidMetadata → Text
write_pid_file p m = p.print (metadata_value m)

-- How `openSync(pidFile, 'wx')` answers.
pub data Opening : Type 0 where
  opened file_exists open_failed : Opening

pub data PidFileError : Type 0 where
  startup_in_progress reserve_failed initialize_failed : PidFileError

-- The PID file after `reservePidFile`, and the error. A reservation that cannot be written is
-- removed again, which may fail.
unfoldable pub reserve_pid_file :
    Platform → Opening → Bool → Bool → PidMetadata → Option Text → Option Text × Option PidFileError
unfolding write_pid_file
reserve_pid_file p file_exists written removed m file = (file, some startup_in_progress)
reserve_pid_file p open_failed written removed m file = (file, some reserve_failed)
reserve_pid_file p opened true removed m file = (some (write_pid_file p m), none)
reserve_pid_file p opened false removed m file =
    (if removed then none else some [], some initialize_failed)

-- `isProcessAlive` of a number: `none` is an exception.
abbrev pub is_alive_positive : (ℕ → Signal) → Option ℕ → Option Bool
is_alive_positive signals none = some false
is_alive_positive signals (some pid) = is_process_alive signals pid

abbrev pub is_alive_number : (ℕ → Signal) → Number → Option Bool
is_alive_number signals n = is_alive_positive signals (positive n)
