-- ===== src/Daemon/Identity.antt =====
-- `verifyDaemonIdentity` of src/util/daemon.ts, and the names that it compares.
pub mod Laws
use offckb.Base.{
  ℕ, zero, suc, ◌+◌, ◌-◌, ◌*◌, Bool, true, false, not, ◌&&◌, ◌||◌, Option, none, some, List, [],
  ◌∷◌, if◌then◌else◌, ltb, leb, ◌==◌, text_eq,
}
use offckb.Base.Text.{Text, text, lower, contains}
use offckb.Value.{pos, Number, integer, fraction, Value}
use offckb.Daemon.PidFiles.{Platform, PidMetadata, positive, resolve_cli_entry}
use offckb.Daemon.Processes.{Instant, ProcessInfo}
use offckb.Daemon.Processes.Tokens.{split_command_line}

-- A path that cannot be resolved compares by its absolute form.
abbrev pub or_absolute : Text → Option Text → Text
or_absolute absolute none = absolute
or_absolute absolute (some real) = real

unfoldable pub normalize_path_for_compare : Platform → Text → Text
normalize_path_for_compare p candidate =
    or_absolute (p.resolve candidate) (p.realpath (p.resolve candidate))

unfoldable pub node_executable_names : List Text
unfolding text
node_executable_names = text "node" ∷ text "nodejs" ∷ text "node.exe" ∷ []

unfoldable pub executable_looks_like_node : Platform → Text → Bool
unfolding normalize_path_for_compare node_executable_names lower
executable_looks_like_node p executable =
    normalize_path_for_compare p executable == normalize_path_for_compare p p.exec_path
    || contains node_executable_names (lower (p.basename executable))

abbrev pub daemon_start_time_tolerance_ms : ℕ
daemon_start_time_tolerance_ms = 30_000

-- `Math.abs(startTimeMs - recordedMs) <= DAEMON_START_TIME_TOLERANCE_MS`
abbrev pub within_tolerance : ℕ → Instant → Bool
within_tolerance recorded t =
    let r = recorded * t.denominator in
    leb ((t.numerator - r) + (r - t.numerator)) (daemon_start_time_tolerance_ms * t.denominator)

abbrev pub start_matches : Option ℕ → Option Instant → Bool
start_matches none start = true
start_matches (some recorded) none = false
start_matches (some recorded) (some start) = within_tolerance recorded start

-- The words of the process: the exact ones where the platform has them.
abbrev pub tokens_of : Option (List Text) → Option Text → Option (List Text)
tokens_of (some argv) cmdline = some argv
tokens_of none (some cmdline) = some (split_command_line cmdline)
tokens_of none none = none

abbrev pub tokens_match : Platform → Text → Option (List Text) → Bool
tokens_match p script (some (executable ∷ first ∷ rest)) =
    executable_looks_like_node p executable && normalize_path_for_compare p first == script
tokens_match p script _ = false

abbrev pub matches_info : Platform → Text → Option ℕ → Option ProcessInfo → Bool
matches_info p script recorded none = false
matches_info p script recorded (some info) =
    tokens_match p script (tokens_of info.argv info.cmdline)
    && start_matches recorded info.start_time

-- `Date.parse` gives whole milliseconds, so a finite time above zero is a positive integer.
unfoldable pub recorded_ms : Platform → PidMetadata → Option ℕ
recorded_ms p m = positive (p.date_parse m.started_at)

-- Without its own entry script the program can establish no identity.
abbrev pub matches_entry : Platform → Option ℕ → Option ProcessInfo → Option Text → Bool
matches_entry p recorded info none = false
matches_entry p recorded info (some entry) =
    matches_info p (normalize_path_for_compare p entry) recorded info

unfoldable pub verify_daemon_identity : Platform → Option ProcessInfo → PidMetadata → Bool
unfolding resolve_cli_entry recorded_ms executable_looks_like_node split_command_line
verify_daemon_identity p info m = matches_entry p (recorded_ms p m) info (resolve_cli_entry p)
