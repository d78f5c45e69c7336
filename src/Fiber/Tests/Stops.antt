-- ===== src/Fiber/Tests/Stops.antt =====
-- Stops of small environments.
use offckb.Base.{true, false, none, some}
use offckb.Fiber.Stop.{Answers, Environment, stop_fiber}
use offckb.Fiber.Stop.Safety.{nothing_sent, MaySignal, stop_fiber-MaySignal}

-- A process that does not go in time and is killed.
abbrev killed : Answers
killed = record {
  term_sent = true;
  exited = some false;
  locks_released = true;
  exited_after_kill = some true;
  alive_at_last = some false;
}

abbrev small_environment : Environment
small_environment = record {
  fiber_daemon = some (record { pid = some 7; is_starting = false; within_startup_window = false });
  node_daemon = none;
  manager = some 7;
  is_alive = λ _. some true;
  is_identified = λ _. true;
  answers = killed;
}

stop_fiber-MaySignal_example :
    MaySignal small_environment nothing_sent (stop_fiber small_environment).0
stop_fiber-MaySignal_example = stop_fiber-MaySignal small_environment
