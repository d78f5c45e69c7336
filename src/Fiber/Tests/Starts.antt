-- ===== src/Fiber/Tests/Starts.antt =====
-- A daemon that is started, and a small environment that is started and stopped.
use offckb.Base.{
  ℕ, ◌*◌, ◌≡◌, ◌≢◌, refl, Bool, true, false, Option, none, some, List, [], ◌∷◌, leb, Result, err,
  if◌then◌else◌, nat_eq, arith,
}
use offckb.Base.Text.{text}
use offckb.Value.{nan, integer, pos, str}
use offckb.Daemon.PidFiles.{
  Platform, PidMetadata, opened, or_empty, resolve_cli_entry, is_alive_number, first_file,
}
use offckb.Fiber.EnvLock.{Signal, delivered, no_process, is_process_alive}
use offckb.Fiber.Nodes.{ensure_nodes_yml, requested_nodes, validate_node_count, created_nodes}
use offckb.Fiber.Start
use offckb.Fiber.Start.Readiness.{await_ready-Ends}
use offckb.Fiber.Start.Readiness
use offckb.Fiber.Start.Records
use offckb.Fiber.Start.Records.{start_fiber_daemon-Keeps}
use offckb.Fiber.Manager.{Handle, StopAnswers, stop_fiber_nodes}
use offckb.Fiber.Manager.Checks.{
  NodeInfo, wait_for_all_node_info, StartupError, Infos, genesis_failed,
}
use offckb.Fiber.Manager.Starting
use offckb.Fiber.Manager.Stopping.{StopsAll, stop_fiber_nodes-StopsAll}
use offckb.Fiber.Manager.Polling
use offckb.Fiber.Manager.Polling.{wait_for_all_node_info-Ends}
use offckb.Fiber.Manager.Started
use offckb.Fiber.Manager.Started.{start_fiber_environment-Tells}

-- The child is ready at the third poll.
abbrev runtime_at : ℕ → Option Start.Runtime
runtime_at i = if leb 2 i then some (record { manager_pid = 9; is_running = true }) else none

abbrev small_poll : ℕ → Start.Poll
small_poll i = record { alive = some true; runtime = runtime_at i }

abbrev each_half_second : ℕ → ℕ
each_half_second i = i * 500

await_ready-Ends_example :
    Readiness.Ends small_poll each_half_second 3_000 9
      (Start.await_ready small_poll each_half_second 3_000 9 3_001 0)
await_ready-Ends_example = await_ready-Ends small_poll each_half_second 3_000 9 (λ j. omega arith)

abbrev small_platform : Platform
small_platform = record {
  parse = λ s. none;
  print = λ v. [];
  to_number = λ s. nan;
  number_of = λ v. nan;
  date_parse = λ v. nan;
  resolve = λ s. s;
  realpath = λ s. some s;
  basename = λ s. s;
  is_file = λ s. true;
  cli_path = some (text "/o/cli.js");
  argv_script = none;
  main_filename = none;
  exec_path = text "/bin/node";
}

abbrev old_file : PidMetadata
old_file = record {
  pid = integer (pos 4);
  script_path = text "/o/cli.js";
  started_at = str (text "then");
  status = some (str (text "running"));
}

abbrev small_inputs : Option PidMetadata → Signal → Start.Inputs
small_inputs existing signal = record {
  existing = existing;
  signals = λ pid. signal;
  info = none;
  own_pid = 1;
  reserved_at = str (text "t1");
  spawned_at = str (text "t2");
  opening = opened;
  reservation_written = true;
  logs_opened = true;
  spawn = Start.spawned 9;
  metadata_written = true;
  running_written = true;
  left_by_failed_write = old_file;
  removable = true;
  fail_answers = record {
    alive_first = some true;
    term_sent = true;
    exited_term = some true;
    kill_sent = true;
    exited_kill = some true;
    alive_last = some false;
  };
}

-- The child exits before it is ready: the PID file is removed.
abbrev exits : ℕ → Option Start.Ready
exits child = some Start.child_exited

abbrev small_start : Start.Start
small_start =
    Start.fail_startup (small_inputs none no_process)
      (Start.claim 9 (text "/o/cli.js") (str (text "t2")) (text "starting")) 9
      Start.exited_before_ready

small_start_ends :
    Start.start_fiber_daemon small_platform (small_inputs none no_process) exits ≡ some small_start
unfolding Start.start_fiber_daemon resolve_cli_entry first_file text
small_start_ends = refl

start_fiber_daemon-Keeps_example :
    Records.Keeps
      (small_inputs none no_process)
      (or_empty (resolve_cli_entry small_platform))
      small_start
start_fiber_daemon-Keeps_example =
    start_fiber_daemon-Keeps small_platform (small_inputs none no_process) exits small_start
      small_start_ends

four_lives : is_alive_number (λ pid. delivered) (integer (pos 4)) ≢ some false
unfolding is_process_alive
four_lives h = cc

-- A node that ignores SIGTERM, and one that has exited.
abbrev stubborn : StopAnswers
stubborn = record { sends = λ t id. true; exits_in_grace = λ id. false; removes_runtime = true }

abbrev two_handles : List Handle
two_handles =
    record { id = 1; exited = false; killed = false }
    ∷ record { id = 2; exited = true; killed = false }
    ∷ []

stop_fiber_nodes-StopsAll_example :
    StopsAll stubborn 7 none two_handles (stop_fiber_nodes stubborn 7 none two_handles)
stop_fiber_nodes-StopsAll_example = stop_fiber_nodes-StopsAll stubborn 7 none two_handles

abbrev small_info : NodeInfo
small_info = record {
  pubkey = text "k";
  chain_hash = text "h";
  default_funding_lock_script = none;
  addresses = [];
}

abbrev never_exits : ℕ → ℕ → Bool
never_exits i id = false

abbrev answer_later : ℕ → ℕ → Option NodeInfo
answer_later i id = if leb id i then some small_info else none

wait_for_all_node_info-Ends_example :
    Polling.Ends never_exits answer_later each_half_second 3_000 (1 ∷ 2 ∷ []) (
      wait_for_all_node_info never_exits answer_later each_half_second 3_000 3_001 0
        (1 ∷ 2 ∷ [])
        [])
wait_for_all_node_info-Ends_example =
    wait_for_all_node_info-Ends never_exits answer_later each_half_second 3_000 (1 ∷ 2 ∷ [])
      (λ j. omega arith)

-- Two nodes, on a chain that does not answer.
abbrev small_environment : Starting.Inputs
small_environment = record {
  own_pid = 7;
  runtime = none;
  manager_alive = λ pid. some false;
  removes_stale = true;
  yaml = record { load = λ s. none; dump = λ v. [] };
  node_count = some (integer (pos 2));
  nodes_file = none;
  key_material = λ id. true;
  config_generated = λ id. true;
  port_free = λ port. true;
  spawns = λ id. true;
  runtime_written = true;
  running_written = true;
  stop_answers = stubborn;
  genesis = none;
  expected_genesis = text "g";
  accounts = record {
    expected_pubkey = λ id. none;
    account_lock = λ id. record { code_hash = []; hash_type = []; args = [] };
    balance = λ id. none;
  };
  connects = λ id address. true;
  peers = none;
}

abbrev no_answers : List ℕ → Result StartupError Infos
no_answers ids = err genesis_failed

start_fiber_environment-Tells_example :
    Started.Tells small_environment (Starting.start_fiber_environment small_environment no_answers)
start_fiber_environment-Tells_example =
    start_fiber_environment-Tells small_environment no_answers tt

-- The run stops both nodes, as the CKB node does not answer.
both_killed :
    (Starting.start_fiber_environment small_environment no_answers).outcome
    ≡ err (Starting.startup genesis_failed)
unfolding Starting.start_fiber_environment Starting.prepare Starting.assert_no_live_fiber_manager
    ensure_nodes_yml requested_nodes validate_node_count created_nodes Starting.prepare_nodes
    Starting.assert_fiber_ports_free Starting.port_conflicts_of Starting.spawn_all
    Starting.startup_checks stop_fiber_nodes
both_killed = refl
