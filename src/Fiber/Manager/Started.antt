-- ===== src/Fiber/Manager/Started.antt =====
-- What a start that succeeds has checked, and what one that fails leaves.
use mathlib.Core.Path.{subst}
use offckb.Base.{
  Bool-cases, if-cases, false, guard, ℕ, ◌≡◌, ◌⊎◌, ◌<◌, inl, inr, refl, ap, sym, ◌∙◌, Bool, true,
  Option, none, some, List, [], ◌∷◌, All, list_eqb_iff, ltb→lt, ◌==◌, text_eq, Result, ok, err,
  >>=-eq-ok, guard-eq-ok, ok-injective, if-both, if◌then◌else◌,
}
use offckb.Base.Text.{Text, lower}
use offckb.Fiber.Stop.{is_gone}
use offckb.Fiber.Manager.{Handle, starting, running, Runtime}
use offckb.Fiber.Manager.Checks.{
  StartupError, NodeInfo, Infos, lock_matches, info_of, check_chain_hashes, genesis_of,
  assert_chain_consistency, Accounts, key_of, balance_of, check_account,
  assert_node_identities_and_funds, connect_fiber_peers,
}
use offckb.Fiber.Manager.Starting.{
  as_nodes, prepare_nodes, assert_fiber_ports_free, EnvironmentError, Inputs, Environment,
  stop_with, runtime_of, startup_checks, after_checks, after_spawns, after_prepare,
  start_fiber_environment, runtime_failed, running_failed, prepare, spawn_all, startup,
  spawn_failed, left_runtime, assert_no_live_fiber_manager,
}
use offckb.Fiber.Nodes.{ensure_nodes_yml}
use offckb.Fiber.Status.Laws.{IsSameLock, lock_matches_iff}
use offckb.Fiber.Manager.Stopping.{ids_of, IsStopped, IsReleased, stop_fiber_nodes-StopsAll}

-- What is known of a node of a running environment.
abbrev pub IsVerified : Inputs → Infos → ℕ → Type 0
IsVerified n infos id =
    (info : NodeInfo) × (key : Text) × (balance : ℕ) × (info_of infos id ≡ ok info)
    × (lower info.chain_hash ≡ lower n.expected_genesis)
    × (n.accounts.expected_pubkey id ≡ some key)
    × (lower info.pubkey ≡ key)
    × IsSameLock info.default_funding_lock_script (n.accounts.account_lock id)
    × (n.accounts.balance id ≡ some balance)
    × (0 < balance)

abbrev HasChain : Text → Infos → ℕ → Type 0
HasChain expected infos id =
    (info : NodeInfo) × (info_of infos id ≡ ok info) × (lower info.chain_hash ≡ expected)

abbrev HasAccount : Accounts → Infos → ℕ → Type 0
HasAccount a infos id =
    (info : NodeInfo) × (key : Text) × (balance : ℕ) × (info_of infos id ≡ ok info)
    × (a.expected_pubkey id ≡ some key)
    × (lower info.pubkey ≡ key)
    × IsSameLock info.default_funding_lock_script (a.account_lock id)
    × (a.balance id ≡ some balance)
    × (0 < balance)

check_chain_hashes-HasChain :
    (expected : Text) (infos : Infos) (ids : List ℕ) {u : Unit {0}}
    → check_chain_hashes expected infos ids ≡ ok u
    → All (HasChain expected infos) ids
unfolding check_chain_hashes
check_chain_hashes-HasChain expected infos [] h = tt
check_chain_hashes-HasChain expected infos (id ∷ ids) h =
    let (info, found, rest) = >>=-eq-ok (info_of infos id) _ h in
    let (v, test, more) = >>=-eq-ok (guard (lower info.chain_hash == expected) _) _ rest in
    (
      (info, found, (list_eqb_iff _ _).0 (guard-eq-ok _ _ test)),
      check_chain_hashes-HasChain expected infos ids more,
    )

key_of-eq-ok : (o : Option Text) (id : ℕ) (key : Text) → key_of o id ≡ ok key → o ≡ some key
key_of-eq-ok none id key h = cc
key_of-eq-ok (some k) id key h = ap some (ok-injective k key h)

balance_of-eq-ok : (o : Option ℕ) (id n : ℕ) → balance_of o id ≡ ok n → o ≡ some n
balance_of-eq-ok none id n h = cc
balance_of-eq-ok (some k) id n h = ap some (ok-injective k n h)

check_account-HasAccount :
    (a : Accounts) (infos : Infos) (id : ℕ) (info : NodeInfo) {u : Unit {0}}
    → info_of infos id ≡ ok info
    → check_account a id info ≡ ok u
    → HasAccount a infos id
unfolding check_account
check_account-HasAccount a infos id info found h =
    let (key, has_key, h1) = >>=-eq-ok (key_of (a.expected_pubkey id) id) _ h in
    let (_, same_key, h2) = >>=-eq-ok (guard (lower info.pubkey == key) _) _ h1 in
    let (_, locked, h3) = >>=-eq-ok (guard (lock_matches _ (a.account_lock id)) _) _ h2 in
    let (balance, has_balance, funded) = >>=-eq-ok (balance_of (a.balance id) id) _ h3 in
    (
      info,
      key,
      balance,
      found,
      key_of-eq-ok (a.expected_pubkey id) id key has_key,
      (list_eqb_iff _ _).0 (guard-eq-ok _ _ same_key),
      (lock_matches_iff _ (a.account_lock id)).0 (guard-eq-ok _ _ locked),
      balance_of-eq-ok (a.balance id) id balance has_balance,
      ltb→lt 0 balance (guard-eq-ok _ _ funded),
    )

assert_node_identities-HasAccount :
    (a : Accounts) (infos : Infos) (ids : List ℕ) {u : Unit {0}}
    → assert_node_identities_and_funds a infos ids ≡ ok u
    → All (HasAccount a infos) ids
unfolding assert_node_identities_and_funds
assert_node_identities-HasAccount a infos [] h = tt
assert_node_identities-HasAccount a infos (id ∷ ids) h =
    let (info, found, rest) = >>=-eq-ok (info_of infos id) _ h in
    let (_, account, more) = >>=-eq-ok (check_account a id info) _ rest in
    (
      check_account-HasAccount a infos id info found account,
      assert_node_identities-HasAccount a infos ids more,
    )

genesis_of-eq-ok :
    (o : Option Text) (hash : Text)
    → genesis_of o ≡ ok hash
    → (g : Text) × (o ≡ some g) × (lower g ≡ hash)
genesis_of-eq-ok none hash h = cc
genesis_of-eq-ok (some g) hash h = (g, refl, ok-injective (lower g) hash h)

verify_node :
    (n : Inputs) (infos : Infos) (ids : List ℕ)
    → All (HasChain (lower n.expected_genesis) infos) ids
    → All (HasAccount n.accounts infos) ids
    → All (IsVerified n infos) ids
verify_node n infos [] chains accounts = tt
verify_node n infos (id ∷ ids) chains accounts =
    let (info, found, chain) = chains.0 in
    let (info', key, balance, found', has_key, same_key, locked, has_balance, funded) =
      accounts.0 in
    let same : info ≡ info' = ok-injective info info' (sym found ∙ found') in
    (
      (
        info',
        key,
        balance,
        found',
        ap (λ (x : NodeInfo). lower x.chain_hash) (sym same) ∙ chain,
        has_key,
        same_key,
        locked,
        has_balance,
        funded,
      ),
      verify_node n infos ids chains.1 accounts.1,
    )

-- What the checks have found: the genesis block of the chain, and each node.
abbrev pub HasPassed : Inputs → List ℕ → Infos → Type 0
HasPassed n ids infos =
    ((g : Text) × (n.genesis ≡ some g) × (lower g ≡ lower n.expected_genesis))
    × All (IsVerified n infos) ids
    × (connect_fiber_peers n.connects n.peers infos ids ≡ ok tt)

startup_checks-HasPassed :
    (n : Inputs) (ids : List ℕ) (waited : Result StartupError Infos) (infos : Infos)
    → startup_checks n ids waited ≡ ok infos
    → HasPassed n ids infos
unfolding startup_checks assert_chain_consistency
startup_checks-HasPassed n ids waited infos h =
    let (found, _, h1) = >>=-eq-ok waited _ h in
    let (_, chain, h2) =
      >>=-eq-ok (assert_chain_consistency n.genesis n.expected_genesis found ids) _ h1 in
    let (_, accounts, h3) =
      >>=-eq-ok (assert_node_identities_and_funds n.accounts found ids) _ h2 in
    let (_, peers, last) = >>=-eq-ok (connect_fiber_peers n.connects n.peers found ids) _ h3 in
    let (hash, answer, same_chain) = >>=-eq-ok (genesis_of n.genesis) _ chain in
    let (_, same, hashes) = >>=-eq-ok (guard (hash == lower n.expected_genesis) _) _ same_chain in
    let (g, is_g, lowered) = genesis_of-eq-ok n.genesis hash answer in
    subst (HasPassed n ids) (ok-injective found infos last) (
      (g, is_g, lowered ∙ (list_eqb_iff _ _).0 (guard-eq-ok _ _ same)),
      verify_node n found ids
          (check_chain_hashes-HasChain (lower n.expected_genesis) found ids hashes)
          (assert_node_identities-HasAccount n.accounts found ids accounts),
      peers,
    )

-- The nodes that are spawned: those before the first whose spawn throws.
unfoldable pub spawned_ids : (ℕ → Bool) → List ℕ → List ℕ
spawned_ids spawns [] = []
spawned_ids spawns (id ∷ ids) =
    let rest = spawned_ids spawns ids in if spawns id then id ∷ rest else []

spawn_all-ids :
    (spawns : ℕ → Bool) (ids : List ℕ) → ids_of (spawn_all spawns ids).0 ≡ spawned_ids spawns ids
unfolding spawn_all spawned_ids
spawn_all-ids spawns [] = refl
spawn_all-ids spawns (id ∷ ids) = elim (Bool-cases (spawns id)) [
  | inl yes' ↦ rw yes' (ap (λ t. id ∷ t) (spawn_all-ids spawns ids))
  | inr no' ↦ rw no' refl
]

spawn_all-none :
    (spawns : ℕ → Bool) (ids : List ℕ)
    → (spawn_all spawns ids).1 ≡ none
    → All (λ id. spawns id ≡ true) ids
unfolding spawn_all
spawn_all-none spawns [] h = tt
spawn_all-none spawns (id ∷ ids) h = elim (Bool-cases (spawns id)) [
  | inl yes' ↦ (yes', spawn_all-none spawns ids (rw yes' at h))
  | inr no' ↦ cc (rw no' at h)
]

spawned_ids-All :
    (spawns : ℕ → Bool) (ids : List ℕ)
    → All (λ id. spawns id ≡ true) ids
    → spawned_ids spawns ids ≡ ids
unfolding spawned_ids
spawned_ids-All spawns [] h = refl
spawned_ids-All spawns (id ∷ ids) h = rw h.0 (ap (λ t. id ∷ t) (spawned_ids-All spawns ids h.1))

-- Each child that was spawned has exited or was sent a SIGKILL, and no record names this process,
-- unless the file cannot be removed.
abbrev pub IsCleared : Inputs → Environment → Type 0
IsCleared n e =
    All (IsStopped e.sent) e.handles
    × (IsReleased n.own_pid e.runtime ⊎ (n.stop_answers.removes_runtime ≡ false))

-- The first record cannot be written: the children are left, and no record names them.
abbrev pub IsOrphaned : Inputs → Environment → EnvironmentError → Type 0
IsOrphaned n e x =
    (x ≡ runtime_failed)
    × (n.runtime_written ≡ false)
    × (e.sent ≡ [])
    × IsReleased n.own_pid e.runtime

-- What an outcome says of the environment, once it was prepared for these nodes.
abbrev pub Ends : Inputs → List ℕ → Environment → Result EnvironmentError Infos → Type 0
Ends n ids e (ok infos) =
    (ids_of e.handles ≡ ids)
    × (e.sent ≡ [])
    × (e.runtime ≡ some (runtime_of n running ids))
    × HasPassed n ids infos
Ends n ids e (err x) =
    (ids_of e.handles ≡ spawned_ids n.spawns ids) × (IsCleared n e ⊎ IsOrphaned n e x)

-- Nothing was started.
abbrev pub IsUntouched : Inputs → Environment → Type 0
IsUntouched n e = (e.handles ≡ []) × (e.sent ≡ []) × IsReleased n.own_pid e.runtime

abbrev pub Tells : Inputs → Environment → Type 0
Tells n e =
    ((x : EnvironmentError) × (prepare n ≡ err x) × (e.outcome ≡ err x) × IsUntouched n e)
    ⊎ ((ids : List ℕ) × (left : Option Runtime) × (prepare n ≡ ok (ids, left))
        × Ends n ids e e.outcome)

stop_with-Ends :
    (n : Inputs) (ids : List ℕ) (runtime : Option Runtime) (handles : List Handle)
    (x : EnvironmentError)
    → ids_of handles ≡ spawned_ids n.spawns ids
    → Ends n ids (stop_with n runtime handles x) (err x)
stop_with-Ends n ids runtime handles x spawned =
    let (same, stopped, _, released, _) =
      stop_fiber_nodes-StopsAll n.stop_answers n.own_pid runtime handles in
    (same ∙ spawned, inl (stopped, released))

after_checks-Ends :
    (n : Inputs) (ids : List ℕ) (handles : List Handle) (r : Result StartupError Infos)
    → ids_of handles ≡ ids
    → spawned_ids n.spawns ids ≡ ids
    → ((infos : Infos) → r ≡ ok infos → HasPassed n ids infos)
    → Ends n ids (after_checks n ids handles r) (after_checks n ids handles r).outcome
after_checks-Ends n ids handles (err x) same all passed =
    stop_with-Ends n ids (some (runtime_of n starting ids)) handles (startup x) (same ∙ sym all)
after_checks-Ends n ids handles (ok infos) same all passed =
    if-both (λ (e : Environment). Ends n ids e e.outcome) n.running_written _ _
      (same, refl, refl, passed infos refl)
      (stop_with-Ends n ids (some (runtime_of n starting ids)) handles running_failed
        (same ∙ sym all))

after_spawns-Ends :
    (n : Inputs) (waited : Result StartupError Infos) (ids : List ℕ) (left : Option Runtime)
    (result : List Handle × Option ℕ)
    → IsReleased n.own_pid left
    → ids_of result.0 ≡ spawned_ids n.spawns ids
    → (result.1 ≡ none → spawned_ids n.spawns ids ≡ ids)
    → Ends n ids
        (after_spawns n waited ids left result)
        (after_spawns n waited ids left result).outcome
after_spawns-Ends n waited ids left (handles, some id) released spawned all =
    stop_with-Ends n ids left handles (spawn_failed id) spawned
after_spawns-Ends n waited ids left (handles, none) released spawned all =
    if-cases (λ (e : Environment). Ends n ids e e.outcome) n.runtime_written _ _
      (λ written.
        after_checks-Ends n ids handles (startup_checks n ids waited) (spawned ∙ all refl)
          (all refl) (λ infos. startup_checks-HasPassed n ids waited infos))
      (λ unwritten. (spawned, inr (refl, unwritten, refl, released)))

live_runtime-IsReleased :
    (own : ℕ) (removes : Bool) (alive : ℕ → Option Bool) (r : Option Runtime)
    → IsReleased own r
    → IsReleased own (left_runtime r (assert_no_live_fiber_manager removes alive r))
unfolding assert_no_live_fiber_manager
live_runtime-IsReleased own removes alive none h = tt
live_runtime-IsReleased own removes alive (some r) h =
    if-both (λ x. IsReleased own (left_runtime (some r) x)) (is_gone (alive r.manager_pid)) _ _
      (if-both (IsReleased own) removes none (some r) tt h) h

assert_no_live-IsReleased :
    (n : Inputs) (left : Option Runtime)
    → IsReleased n.own_pid n.runtime
    → assert_no_live_fiber_manager n.removes_stale n.manager_alive n.runtime ≡ ok left
    → IsReleased n.own_pid left
assert_no_live-IsReleased n left h e =
    subst (λ x. IsReleased n.own_pid (left_runtime n.runtime x)) e
      (live_runtime-IsReleased n.own_pid n.removes_stale n.manager_alive n.runtime h)

prepare-IsReleased :
    (n : Inputs) (ids : List ℕ) (left : Option Runtime)
    → IsReleased n.own_pid n.runtime
    → prepare n ≡ ok (ids, left)
    → IsReleased n.own_pid left
unfolding prepare
prepare-IsReleased n ids left h e =
    let (found, live, e1) =
      >>=-eq-ok (assert_no_live_fiber_manager n.removes_stale n.manager_alive n.runtime) _ e in
    let (nodes, _, e2) =
      >>=-eq-ok (as_nodes (ensure_nodes_yml n.yaml n.node_count n.nodes_file)) _ e1 in
    let (_, _, e3) = >>=-eq-ok (prepare_nodes n nodes) _ e2 in
    let (_, _, e4) = >>=-eq-ok (assert_fiber_ports_free n.port_free nodes) _ e3 in
    subst (IsReleased n.own_pid) (ap (λ (r : List ℕ × Option Runtime). r.1) (ok-injective _ _ e4))
      (assert_no_live-IsReleased n found h live)

after_prepare-Tells :
    (n : Inputs) (wait : List ℕ → Result StartupError Infos)
    (r : Result EnvironmentError (List ℕ × Option Runtime))
    → IsReleased n.own_pid n.runtime
    → prepare n ≡ r
    → Tells n (after_prepare n wait r)
after_prepare-Tells n wait (err x) h e = inl (
  x,
  e,
  refl,
  (refl, refl, live_runtime-IsReleased n.own_pid n.removes_stale n.manager_alive n.runtime h),
)
after_prepare-Tells n wait (ok (ids, left)) h e = inr (
  ids,
  left,
  e,
  after_spawns-Ends n (wait ids) ids left (spawn_all n.spawns ids)
      (prepare-IsReleased n ids left h e) (spawn_all-ids n.spawns ids)
      (λ all. spawned_ids-All n.spawns ids (spawn_all-none n.spawns ids all)),
)

-- When no record names this process before, a start of the environment ends in one of these ways.
-- Its preparation fails, and nothing was spawned or signalled. Or it succeeds, with all nodes of
-- nodes.yml spawned, none signalled and a record that says running, and then the CKB node is on the
-- expected chain, each node reported that chain, the key and the lock that it was given, and an
-- account with a balance above zero, and the first node is connected to the others. Or it fails,
-- and of the nodes up to the first that could not be spawned, each has exited or was sent a
-- SIGKILL, and no record names this process unless the file cannot be removed; or else its first
-- record could not be written, and the nodes are left with no signal and no record of this process.
pub start_fiber_environment-Tells :
    (n : Inputs) (wait : List ℕ → Result StartupError Infos)
    → IsReleased n.own_pid n.runtime
    → Tells n (start_fiber_environment n wait)
unfolding start_fiber_environment
start_fiber_environment-Tells n wait h = after_prepare-Tells n wait (prepare n) h refl
