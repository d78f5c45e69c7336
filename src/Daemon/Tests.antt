-- ===== src/Daemon/Tests.antt =====
-- A small PID file, a process that goes, and a command line.
use offckb.Base.{
  ℕ, ◌*◌, ◌≡◌, ◌↔◌, refl, All, Bool, true, false, Option, none, some, List, [], ◌∷◌, leb,
  if◌then◌else◌, arith,
}
use offckb.Base.Text.{Text, text, trim, trim_start, is_space, join}
use offckb.Value.{Value, num, str, pos, Number, nan, integer}
use offckb.Daemon.PidFiles.{Platform, PidMetadata, metadata_value, read_pid_file, write_pid_file}
use offckb.Daemon.PidFiles.Laws.{IsPlatform, read_pid_file-write_pid_file}
use offckb.Daemon.Waiting.{Ends, wait_for_process_exit, wait_for_process_exit-Ends}
use offckb.Daemon.Processes.Tokens.{IsPlain, split_command_line, split_command_line-join}
use offckb.Daemon.Identity.{verify_daemon_identity}
use offckb.Daemon.Identity.Laws.{IsDaemon, verify_daemon_identity_iff}

abbrev small_metadata : PidMetadata
small_metadata = record {
  pid = integer (pos 7);
  script_path = text "/o/cli.js";
  started_at = str (text "then");
  status = some (str (text "ready"));
}

abbrev number_in : Option Value → Number
number_in (some (num n)) = n
number_in _ = nan

abbrev small_platform : Platform
small_platform = record {
  parse = λ s. some (metadata_value small_metadata);
  print = λ v. text "{}";
  to_number = λ s. nan;
  number_of = number_in;
  date_parse = λ v. integer (pos 1_000);
  resolve = λ s. s;
  realpath = λ s. some s;
  basename = λ s. s;
  is_file = λ s. true;
  cli_path = some (text "/o/cli.js");
  argv_script = none;
  main_filename = none;
  exec_path = text "/bin/node";
}

small_platform-IsPlatform : IsPlatform small_platform small_metadata
unfolding write_pid_file trim trim_start is_space text
small_platform-IsPlatform = record {
  parse_print = refl;
  print_no_number = refl;
  print_some = λ h. cc;
  number_of_number = λ n. refl;
}

read_pid_file-write_pid_file_example :
    read_pid_file small_platform (some (write_pid_file small_platform small_metadata))
    ≡ some small_metadata
read_pid_file-write_pid_file_example =
    read_pid_file-write_pid_file small_platform 6 small_metadata small_platform-IsPlatform refl
      (λ h. cc)

-- Alive at the polls before the third, with a poll each 100 milliseconds.
abbrev alive_twice : ℕ → Option Bool
alive_twice i = some (if leb 2 i then false else true)

abbrev each_100 : ℕ → ℕ
each_100 i = i * 100

wait_for_process_exit-Ends_example :
    Ends alive_twice each_100 500 0 (wait_for_process_exit alive_twice each_100 500 501)
wait_for_process_exit-Ends_example =
    wait_for_process_exit-Ends alive_twice each_100 500 (λ j. omega arith)

abbrev small_words : List Text
small_words = text "node" ∷ text "cli.js" ∷ []

small_words-IsPlain : All IsPlain small_words
unfolding is_space text
small_words-IsPlain = (
  (refl, (refl, (refl, (refl, (refl, tt))))),
  ((refl, (refl, (refl, (refl, (refl, (refl, (refl, tt))))))), tt),
)

split_command_line-join_example : split_command_line (join (32 ∷ []) small_words) ≡ small_words
split_command_line-join_example = split_command_line-join small_words small_words-IsPlain

verify_daemon_identity_iff_example :
    (verify_daemon_identity small_platform
        (some (record { argv = some small_words; cmdline = none; start_time = none }))
        small_metadata
      ≡ true)
    ↔ IsDaemon small_platform
        (some (record { argv = some small_words; cmdline = none; start_time = none }))
        small_metadata
verify_daemon_identity_iff_example =
    verify_daemon_identity_iff small_platform
      (some (record { argv = some small_words; cmdline = none; start_time = none })) small_metadata
