-- ===== src/Fiber/Manager.antt =====
-- src/fiber/manager.ts: how the processes of a Fiber environment are started, checked and stopped.
-- A child is known by the number of its node. Signals that the program itself gets while it starts
-- the nodes are left out.
pub mod Checks
pub mod Starting
pub mod Stopping
pub mod Polling
pub mod Started
use offckb.Base.{
  ℕ, zero, suc, Bool, true, false, not, ◌&&◌, ◌||◌, Option, none, some, List, [], ◌∷◌, ◌++◌,
  if◌then◌else◌, map, ◌==◌, nat_eq,
}
use offckb.Fiber.Stop.{Termination, sigterm, sigkill}

-- `FnnProcessHandle`: whether an exit code or a signal is set, and `process.killed`.
pub record Handle : Type 0 where
  pub id : ℕ
  pub exited : Bool
  pub killed : Bool

pub record Signalled : Type 0 where
  pub termination : Termination
  pub node : ℕ

-- What a stop meets, for each node: whether `kill` sends the signal, and whether the child exits
-- within the grace period.
pub record StopAnswers : Type 0 where
  pub sends : Termination → ℕ → Bool
  pub exits_in_grace : ℕ → Bool
  -- whether the runtime file can be removed; a failure is only warned of
  pub removes_runtime : Bool

-- The first loop of `stopFiberNodes`. A call of `kill` that throws is ignored.
abbrev pub must_term : Handle → Bool
must_term h = not h.exited && not h.killed

abbrev pub term_if :
    StopAnswers → Bool → Handle → List Signalled × List Handle → List Signalled × List Handle
term_if a true h (sent, rest) = (
  record { termination = sigterm; node = h.id } ∷ sent,
  record h { killed = a.sends sigterm h.id } ∷ rest,
)
term_if a false h (sent, rest) = (sent, h ∷ rest)

unfoldable pub term_nodes : StopAnswers → List Handle → List Signalled × List Handle
term_nodes a [] = ([], [])
term_nodes a (h ∷ hs) = term_if a (must_term h) h (term_nodes a hs)

-- The wait: a child that exits in the grace period is seen to have.
unfoldable pub await_nodes : StopAnswers → List Handle → List Handle
await_nodes a [] = []
await_nodes a (h ∷ hs) = record h { exited = h.exited || a.exits_in_grace h.id } ∷ await_nodes a hs

-- The last loop.
abbrev pub kill_unless : Bool → ℕ → List Signalled → List Signalled
kill_unless true id sent = sent
kill_unless false id sent = record { termination = sigkill; node = id } ∷ sent

unfoldable pub kill_nodes : List Handle → List Signalled
kill_nodes [] = []
kill_nodes (h ∷ hs) = kill_unless h.exited h.id (kill_nodes hs)

pub data RuntimeStatus : Type 0 where
  starting running : RuntimeStatus

-- `FiberRuntime`, with the nodes by their numbers.
pub record Runtime : Type 0 where
  pub manager_pid : ℕ
  pub status : RuntimeStatus
  pub nodes : List ℕ

-- `removeRuntimeFileIfManager`
abbrev pub remove_if_manager : Bool → ℕ → Option Runtime → Option Runtime
remove_if_manager removes own none = none
remove_if_manager removes own (some r) = if r.manager_pid == own && removes then none else some r

pub record Stopped : Type 0 where
  pub sent : List Signalled
  pub handles : List Handle
  pub runtime : Option Runtime

unfoldable pub stop_fiber_nodes : StopAnswers → ℕ → Option Runtime → List Handle → Stopped
unfolding term_nodes await_nodes kill_nodes
stop_fiber_nodes a own runtime handles =
    let termed = term_nodes a handles in
    let awaited = await_nodes a termed.1 in
    record {
      sent = termed.0 ++ kill_nodes awaited;
      handles = awaited;
      runtime = remove_if_manager a.removes_runtime own runtime;
    }
