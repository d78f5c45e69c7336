-- ===== src/Fiber/Manager/Starting.antt =====
-- `startFiberEnvironment`, `assertNoLiveFiberManager` and `assertFiberPortsFree` of
-- src/fiber/manager.ts.
use offckb.Base.{
  ℕ, Bool, false, Option, none, some, List, [], ◌∷◌, ◌++◌, map, if◌then◌else◌, nat_eq, Result, ok,
  err, ◌>>=◌, ◌>>◌, guard,
}
use offckb.Base.Text.{Text}
use offckb.Value.{Number}
use offckb.Fiber.Paths.{fiber_rpc_port, fiber_p2p_port}
use offckb.Fiber.Nodes.{Yaml, FiberNodeEntry, NodesError, ensure_nodes_yml}
use offckb.Fiber.Stop.{is_gone}
use offckb.Fiber.Manager.{
  Handle, Signalled, StopAnswers, RuntimeStatus, starting, running, Runtime, Stopped,
  stop_fiber_nodes,
}
use offckb.Fiber.Manager.Checks.{
  StartupError, Infos, Accounts, assert_chain_consistency, assert_node_identities_and_funds,
  connect_fiber_peers,
}

pub data EnvironmentError : Type 0 where
  already_managed : ℕ → EnvironmentError
  nodes_error : NodesError → EnvironmentError
  key_material node_config spawn_failed : ℕ → EnvironmentError
  port_conflicts : List ℕ → EnvironmentError
  runtime_failed running_failed : EnvironmentError
  startup : StartupError → EnvironmentError

-- What the start meets.
pub record Inputs : Type 0 where
  pub own_pid : ℕ
  pub runtime : Option Runtime
  pub manager_alive : ℕ → Option Bool
  pub removes_stale : Bool
  pub yaml : Yaml
  pub node_count : Option Number
  pub nodes_file : Option Text
  pub key_material : ℕ → Bool
  pub config_generated : ℕ → Bool
  pub port_free : ℕ → Bool
  pub spawns : ℕ → Bool
  pub runtime_written : Bool
  pub running_written : Bool
  pub stop_answers : StopAnswers
  pub genesis : Option Text
  pub expected_genesis : Text
  pub accounts : Accounts
  pub connects : ℕ → Text → Bool
  pub peers : Option ℕ

-- `assertNoLiveFiberManager`: the record that is left, or the error.
unfoldable pub assert_no_live_fiber_manager :
    Bool → (ℕ → Option Bool) → Option Runtime → Result EnvironmentError (Option Runtime)
assert_no_live_fiber_manager removes alive none = ok none
assert_no_live_fiber_manager removes alive (some r) =
    if is_gone (alive r.manager_pid)
    then ok (if removes then none else some r)
    else err (already_managed r.manager_pid)

abbrev pub port_conflict : (ℕ → Bool) → ℕ → List ℕ
port_conflict free port = if free port then [] else port ∷ []

unfoldable pub port_conflicts_of : (ℕ → Bool) → List ℕ → List ℕ
unfolding fiber_rpc_port fiber_p2p_port
port_conflicts_of free [] = []
port_conflicts_of free (id ∷ ids) =
    port_conflict free (fiber_rpc_port id)
    ++ (port_conflict free (fiber_p2p_port id) ++ port_conflicts_of free ids)

abbrev pub no_conflict : List ℕ → Result EnvironmentError (Unit {0})
no_conflict [] = ok tt
no_conflict (port ∷ ports) = err (port_conflicts (port ∷ ports))

-- `assertFiberPortsFree`
unfoldable pub assert_fiber_ports_free : (ℕ → Bool) → List ℕ → Result EnvironmentError (Unit {0})
unfolding port_conflicts_of
assert_fiber_ports_free free ids = no_conflict (port_conflicts_of free ids)

abbrev pub as_nodes :
    Result NodesError (List FiberNodeEntry × Option Text) → Result EnvironmentError (List ℕ)
as_nodes (err e) = err (nodes_error e)
as_nodes (ok (nodes, file)) = ok (map (λ (n : FiberNodeEntry). n.id) nodes)

-- The key material and the configuration of each node, in turn.
unfoldable pub prepare_nodes : Inputs → List ℕ → Result EnvironmentError (Unit {0})
prepare_nodes n [] = ok tt
prepare_nodes n (id ∷ ids) = do
  guard (n.key_material id) (key_material id)
  guard (n.config_generated id) (node_config id)
  prepare_nodes n ids

-- All that comes before the first process: the nodes, and the runtime record that is left.
unfoldable pub prepare : Inputs → Result EnvironmentError (List ℕ × Option Runtime)
unfolding assert_no_live_fiber_manager ensure_nodes_yml prepare_nodes assert_fiber_ports_free
prepare n = do
  left ← assert_no_live_fiber_manager n.removes_stale n.manager_alive n.runtime
  ids ← as_nodes (ensure_nodes_yml n.yaml n.node_count n.nodes_file)
  prepare_nodes n ids
  assert_fiber_ports_free n.port_free ids
  ok (ids, left)

abbrev pub new_handle : ℕ → Handle
new_handle id = record { id = id; exited = false; killed = false }

-- The spawns in turn, up to the first that throws: the handles, and whether all were spawned.
unfoldable pub spawn_all : (ℕ → Bool) → List ℕ → List Handle × Option ℕ
spawn_all spawns [] = ([], none)
spawn_all spawns (id ∷ ids) =
    let (handles, failed) = spawn_all spawns ids in
    if spawns id then (new_handle id ∷ handles, failed) else ([], some id)

-- The children at the end, the signals that were sent to them, the runtime record, and the outcome.
pub record Environment : Type 0 where
  pub handles : List Handle
  pub sent : List Signalled
  pub runtime : Option Runtime
  pub outcome : Result EnvironmentError Infos

abbrev pub give_up : Stopped → EnvironmentError → Environment
give_up s e = record { handles = s.handles; sent = s.sent; runtime = s.runtime; outcome = err e }

abbrev pub stop_with : Inputs → Option Runtime → List Handle → EnvironmentError → Environment
stop_with n runtime handles e =
    give_up (stop_fiber_nodes n.stop_answers n.own_pid runtime handles) e

abbrev pub runtime_of : Inputs → RuntimeStatus → List ℕ → Runtime
runtime_of n status ids = record { manager_pid = n.own_pid; status = status; nodes = ids }

-- The checks in order, on what the wait for the nodes gives.
unfoldable pub startup_checks :
    Inputs → List ℕ → Result StartupError Infos → Result StartupError Infos
unfolding assert_chain_consistency assert_node_identities_and_funds connect_fiber_peers
startup_checks n ids waited = do
  infos ← waited
  assert_chain_consistency n.genesis n.expected_genesis infos ids
  assert_node_identities_and_funds n.accounts infos ids
  connect_fiber_peers n.connects n.peers infos ids
  ok infos

abbrev pub after_checks : Inputs → List ℕ → List Handle → Result StartupError Infos → Environment
after_checks n ids handles (err e) =
    stop_with n (some (runtime_of n starting ids)) handles (startup e)
after_checks n ids handles (ok infos) =
    if n.running_written
    then record {
      handles = handles;
      sent = [];
      runtime = some (runtime_of n running ids);
      outcome = ok infos;
    }
    else stop_with n (some (runtime_of n starting ids)) handles running_failed

-- The record is written outside of the `try` that stops the nodes.
abbrev pub after_spawns :
    Inputs
    → Result StartupError Infos
    → List ℕ
    → Option Runtime
    → List Handle × Option ℕ
    → Environment
after_spawns n waited ids left (handles, some id) = stop_with n left handles (spawn_failed id)
after_spawns n waited ids left (handles, none) =
    if n.runtime_written
    then after_checks n ids handles (startup_checks n ids waited)
    else record { handles = handles; sent = []; runtime = left; outcome = err runtime_failed }

-- The runtime record that is there when the preparation fails.
abbrev pub left_runtime : Option Runtime → Result EnvironmentError (Option Runtime) → Option Runtime
left_runtime before (err e) = before
left_runtime before (ok left) = left

abbrev pub after_prepare :
    Inputs
    → (List ℕ → Result StartupError Infos)
    → Result EnvironmentError (List ℕ × Option Runtime)
    → Environment
after_prepare n wait (err e) = record {
  handles = [];
  sent = [];
  runtime =
      left_runtime n.runtime
        (assert_no_live_fiber_manager n.removes_stale n.manager_alive n.runtime);
  outcome = err e;
}
after_prepare n wait (ok (ids, left)) = after_spawns n (wait ids) ids left (spawn_all n.spawns ids)

-- `startFiberEnvironment`, where `wait` is the wait for the nodes, which is given as a function.
unfoldable pub start_fiber_environment : Inputs → (List ℕ → Result StartupError Infos) → Environment
unfolding prepare spawn_all startup_checks stop_fiber_nodes
start_fiber_environment n wait = after_prepare n wait (prepare n)
