-- ===== src/Fiber/Manager/Checks.antt =====
-- The wait and the checks between the spawn of the nodes and a running environment:
-- `waitForAllNodeInfo`, `assertChainConsistency`, `assertNodeIdentitiesAndFunds` and
-- `connectFiberPeers` of src/fiber/manager.ts, and `lockMatches` of src/fiber/status.ts.
use offckb.Base.{
  ℕ, zero, suc, Bool, true, false, ◌&&◌, Option, none, some, List, [], ◌∷◌, ◌++◌, if◌then◌else◌,
  leb, ltb, length, ◌==◌, nat_eq, text_eq, Result, ok, err, ◌>>=◌, ◌>>◌, guard,
}
use offckb.Base.Text.{Text, text, lower, includes}

pub record LockScript : Type 0 where
  pub code_hash : Text
  pub hash_type : Text
  pub args : Text

pub record NodeInfo : Type 0 where
  pub pubkey : Text
  pub chain_hash : Text
  pub default_funding_lock_script : Option LockScript
  pub addresses : List Text

pub data StartupError : Type 0 where
  exited_during_startup chain_mismatch no_identity_key : ℕ → StartupError
  unexpected_identity funds_account_mismatch balance_failed : ℕ → StartupError
  no_funds no_address connect_failed missing_info : ℕ → StartupError
  rpc_timeout : List ℕ → StartupError
  genesis_failed genesis_mismatch peers_failed : StartupError
  too_few_peers : ℕ → ℕ → StartupError

-- `lockMatches`
unfoldable pub lock_matches : Option LockScript → LockScript → Bool
unfolding lower
lock_matches none expected = false
lock_matches (some actual) expected =
    lower actual.code_hash == lower expected.code_hash
    && lower actual.hash_type == lower expected.hash_type
    && lower actual.args == lower expected.args

abbrev pub Infos : Type 0
Infos = List (ℕ × NodeInfo)

-- `nodeInfos.get(id)!`: a member of `undefined` is read by no one but throws.
unfoldable pub info_of : Infos → ℕ → Result StartupError NodeInfo
info_of [] id = err (missing_info id)
info_of ((k, info) ∷ infos) id = if k == id then ok info else info_of infos id

-- One round over the pending nodes: the ones left, and the infos. A child that has exited ends it.
module _ (exited : ℕ → Bool) (answer : ℕ → Option NodeInfo) where
  abbrev pub answered : Option NodeInfo → ℕ → List ℕ × Infos → List ℕ × Infos
  answered none id (pending, infos) = (id ∷ pending, infos)
  answered (some info) id (pending, infos) = (pending, (id, info) ∷ infos)

  unfoldable pub poll_round : List ℕ → Result StartupError (List ℕ × Infos)
  poll_round [] = ok ([], [])
  poll_round (id ∷ ids) =
      if exited id
      then err (exited_during_startup id)
      else (poll_round ids >>= λ r. ok (answered (answer id) id r))

abbrev pub no_ids : List ℕ → Bool
no_ids [] = true
no_ids (_ ∷ _) = false

-- `waitForAllNodeInfo`: `exited` and `answer` for each round; the fuel is the rounds that may follow,
-- and `none` is fuel that ran out. Within a round, no node is asked twice.
module _ (exited : ℕ → ℕ → Bool) (answer : ℕ → ℕ → Option NodeInfo) (elapsed : ℕ → ℕ)
    (timeout : ℕ) where
  unfoldable pub wait_for_all_node_info :
      ℕ → ℕ → List ℕ → Infos → Option (Result StartupError Infos)
  unfolding poll_round
  wait_for_all_node_info zero i pending infos = none
  wait_for_all_node_info (suc fuel) i pending infos = elim (no_ids pending) [
    | true ↦ some (ok infos)
    | false ↦ elim (leb timeout (elapsed i)) [
      | true ↦ some (err (rpc_timeout pending))
      | false ↦ elim (poll_round (exited i) (answer i) pending) [
        | err e ↦ some (err e)
        | ok (left, found) ↦ wait_for_all_node_info fuel (suc i) left (infos ++ found)
      ]
    ]
  ]

-- The chain hash of each node is that of the chain.
unfoldable pub check_chain_hashes : Text → Infos → List ℕ → Result StartupError (Unit {0})
unfolding info_of lower
check_chain_hashes expected infos [] = ok tt
check_chain_hashes expected infos (id ∷ ids) = do
  info ← info_of infos id
  guard (lower info.chain_hash == expected) (chain_mismatch id)
  check_chain_hashes expected infos ids

abbrev pub genesis_of : Option Text → Result StartupError Text
genesis_of none = err genesis_failed
genesis_of (some hash) = ok (lower hash)

-- `assertChainConsistency`, on the answer of the CKB node.
unfoldable pub assert_chain_consistency :
    Option Text → Text → Infos → List ℕ → Result StartupError (Unit {0})
unfolding check_chain_hashes
assert_chain_consistency genesis expected infos ids = do
  found ← genesis_of genesis
  guard (found == lower expected) genesis_mismatch
  check_chain_hashes (lower expected) infos ids

-- What the checks of a node's identity and funds read: the public key of its secret, where `none` is
-- a key that cannot be used, the lock of its account, and the balance of that lock.
pub record Accounts : Type 0 where
  pub expected_pubkey : ℕ → Option Text
  pub account_lock : ℕ → LockScript
  pub balance : ℕ → Option ℕ

abbrev pub key_of : Option Text → ℕ → Result StartupError Text
key_of none id = err (no_identity_key id)
key_of (some key) id = ok key

abbrev pub balance_of : Option ℕ → ℕ → Result StartupError ℕ
balance_of none id = err (balance_failed id)
balance_of (some n) id = ok n

unfoldable pub check_account : Accounts → ℕ → NodeInfo → Result StartupError (Unit {0})
unfolding lock_matches
check_account a id info = do
  key ← key_of (a.expected_pubkey id) id
  guard (lower info.pubkey == key) (unexpected_identity id)
  guard (lock_matches info.default_funding_lock_script (a.account_lock id))
      (funds_account_mismatch id)
  balance ← balance_of (a.balance id) id
  guard (ltb 0 balance) (no_funds id)

-- `assertNodeIdentitiesAndFunds`
unfoldable pub assert_node_identities_and_funds :
    Accounts → Infos → List ℕ → Result StartupError (Unit {0})
unfolding info_of check_account
assert_node_identities_and_funds a infos [] = ok tt
assert_node_identities_and_funds a infos (id ∷ ids) = do
  info ← info_of infos id
  check_account a id info
  assert_node_identities_and_funds a infos ids

-- `info.addresses.find((addr) => addr.includes('/p2p/'))`
unfoldable pub connectable : List Text → Option Text
unfolding includes text
connectable [] = none
connectable (a ∷ as') =
    let rest = connectable as' in if includes a (text "/p2p/") then some a else rest

abbrev pub address_of : Option Text → ℕ → Result StartupError Text
address_of none id = err (no_address id)
address_of (some a) id = ok a

unfoldable pub connect_all : (ℕ → Text → Bool) → Infos → List ℕ → Result StartupError (Unit {0})
unfolding info_of connectable
connect_all connects infos [] = ok tt
connect_all connects infos (id ∷ ids) = do
  info ← info_of infos id
  address ← address_of (connectable info.addresses) id
  guard (connects id address) (connect_failed id)
  connect_all connects infos ids

abbrev pub enough_peers : Option ℕ → ℕ → Result StartupError (Unit {0})
enough_peers none expected = err peers_failed
enough_peers (some peers) expected =
    if ltb peers expected then err (too_few_peers peers expected) else ok tt

-- `connectFiberPeers`, with the number of peers that the first node then lists. An address that is
-- the empty text is no address, but has no part that is looked for.
unfoldable pub connect_fiber_peers :
    (ℕ → Text → Bool) → Option ℕ → Infos → List ℕ → Result StartupError (Unit {0})
unfolding connect_all
connect_fiber_peers connects peers infos [] = ok tt
connect_fiber_peers connects peers infos (first ∷ []) = ok tt
connect_fiber_peers connects peers infos (first ∷ second ∷ rest) = do
  connect_all connects infos (second ∷ rest)
  enough_peers peers (length (second ∷ rest))
