-- ===== src/Fiber/Tests.antt =====
-- Small environments: the lock.
mod Nodes
mod Stops
mod Starts
mod Uses
use offckb.Base.{
  ℕ, ◌<◌, ◌≡◌, ◌≢◌, ◌⊎◌, refl, Bool, true, false, Option, none, some, List, [], ◌∷◌, All, list_eqb,
  if◌then◌else◌, ◌==◌, text_eq, Result, ok, err, arith,
}
use offckb.Base.Text.{Text, text, decimal, print_digits}
use offckb.Value.{Value, num, str, obj, pos, integer, field, end, lookup}
use offckb.Value.Paths.{get_key}
use offckb.Fiber.EnvLock.{
  Json, Signal, delivered, World, LockRecord, LockError, another_process, read_lock_record,
  live_holder, acquire_env_lock, is_process_alive, record_text, attempts, write_record,
}
use offckb.Fiber.EnvLock.Laws.{IsJson, IsAlive, IsOpen, acquire_env_lock_lem}
use offckb.Fiber.EnvLock.Exclusion.{
  Operation, acquire, release, exit, start, System, run, operate, mutual_exclusion,
}
use offckb.Fiber.EnvLock.Race.{
  Turn, first, second, interleave, both_start, race, holds, overlapping_acquisition,
  written_lock_excludes,
}

-- Records of process 1 at one time are all that is printed and parsed.
abbrev units : ℕ → Text → Text
units pid now = pid ∷ now

abbrev printed : Option Value → Option Value → Text
printed (some (num (integer (pos pid)))) (some (str now)) = units pid now
printed _ _ = []

abbrev parsed : Text → Option Value
parsed [] = none
parsed (pid ∷ now) =
    some
      (obj (field (text "pid") (num (integer (pos pid))) (field (text "acquiredAt") (str now) end)))

abbrev small_json : Json
small_json = record {
  parse = parsed;
  print = λ v. printed (get_key (text "pid") v) (get_key (text "acquiredAt") v);
  to_text = λ _. [];
}

small_json-IsJson : IsJson small_json
unfolding get_key lookup text list_eqb
small_json-IsJson = record { parse_record = λ pid now. refl; parse_empty = refl }

abbrev free_world : World
free_world = record {
  path = none;
  content = λ _. [];
  next = 0;
  signals = λ _. delivered;
  now = text "now";
}

-- Process 5 takes the lock and exits with it, and process 6 takes it over.
abbrev small_system : System
small_system = record { world = free_world; held = λ _. false }

abbrev operations : List Operation
operations = acquire 5 ∷ exit 5 ∷ acquire 6 ∷ []

six_holds : (run small_json operations small_system).held 6 ≡ true
unfolding run operate acquire_env_lock attempts read_lock_record write_record live_holder
    is_process_alive get_key lookup text list_eqb
six_holds = refl

six_lives : IsAlive (run small_json operations small_system).world 6
unfolding run operate acquire_env_lock attempts read_lock_record write_record live_holder
    is_process_alive get_key lookup text list_eqb
six_lives = refl

abbrev the_holder : ℕ
the_holder = 6

mutual_exclusion_example : the_holder ≡ the_holder
mutual_exclusion_example =
    mutual_exclusion small_json operations small_system 6 6 small_json-IsJson
      (omega arith, (tt, (omega arith, tt))) (λ pid. refl) six_holds six_lives six_holds six_lives

overlapping_acquisition_example :
    ((interleave small_json 5 6 race (both_start free_world)).one ≡ holds)
    × ((interleave small_json 5 6 race (both_start free_world)).two ≡ holds)
    × (read_lock_record small_json (interleave small_json 5 6 race (both_start free_world)).world
        ≡ some (record { pid = 6; acquired_at = text "now" }))
overlapping_acquisition_example =
    overlapping_acquisition small_json free_world 5 6 small_json-IsJson (omega arith) refl
