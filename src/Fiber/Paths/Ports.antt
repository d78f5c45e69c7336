-- ===== src/Fiber/Paths/Ports.antt =====
-- The accounts, ports and addresses of the nodes of one environment.
use mathlib.Core.List.{append_cancel_left}
use offckb.Base.{ℕ, ◌≤◌, ◌≡◌, ◌≢◌, arith}
use offckb.Base.Text.{text, decimal, decimal_injective}
use offckb.Fiber.Paths.{
  min_fiber_nodes, max_fiber_nodes, udt_issuer_account_index, fiber_account_index, fiber_rpc_port,
  fiber_p2p_port, fiber_rpc_addr, fiber_p2p_addr,
}

abbrev pub IsNodeId : ℕ → Type 0
IsNodeId id = (min_fiber_nodes ≤ id) × (id ≤ max_fiber_nodes)

same_rpc_addr : (a b : ℕ) → fiber_rpc_addr a ≡ fiber_rpc_addr b → a ≡ b
unfolding fiber_rpc_addr fiber_rpc_port
same_rpc_addr a b e =
    let ports : fiber_rpc_port a ≡ fiber_rpc_port b =
      decimal_injective (fiber_rpc_port a) (fiber_rpc_port b) (
        append_cancel_left (text "127.0.0.1:") (decimal (fiber_rpc_port a))
          (decimal (fiber_rpc_port b)) e) in
    omega (arith, ports)

same_p2p_addr : (a b : ℕ) → fiber_p2p_addr a ≡ fiber_p2p_addr b → a ≡ b
unfolding fiber_p2p_addr fiber_p2p_port
same_p2p_addr a b e =
    let ports : fiber_p2p_port a ≡ fiber_p2p_port b =
      decimal_injective (fiber_p2p_port a) (fiber_p2p_port b) (
        append_cancel_left (text "/ip4/127.0.0.1/tcp/") (decimal (fiber_p2p_port a))
          (decimal (fiber_p2p_port b)) e) in
    omega (arith, ports)

-- The nodes 1 to 16 use accounts from 3 to 18, never that of the issuer, and valid ports. Two
-- different nodes use different accounts and listen on different addresses, and no node serves
-- RPC on a port on which one listens for peers.
pub node_resources-apart :
    (a b : ℕ)
    → IsNodeId a
    → IsNodeId b
    → a ≢ b
    → (3 ≤ fiber_account_index a)
      × (fiber_account_index a ≤ 18)
      × (fiber_account_index a ≢ udt_issuer_account_index)
      × (fiber_account_index a ≢ fiber_account_index b)
      × (fiber_rpc_port a ≤ 65535)
      × (fiber_p2p_port a ≤ 65535)
      × (fiber_rpc_port a ≢ fiber_p2p_port a)
      × (fiber_rpc_port a ≢ fiber_p2p_port b)
      × (fiber_rpc_addr a ≢ fiber_rpc_addr b)
      × (fiber_p2p_addr a ≢ fiber_p2p_addr b)
unfolding fiber_account_index fiber_rpc_port fiber_p2p_port
node_resources-apart a b ha hb n = (
  omega (arith, ha.0),
  omega (arith, ha.1),
  λ e. absurd (omega (arith, ha.1, e)),
  λ e. n (omega (arith, e)),
  omega (arith, ha.1),
  omega (arith, ha.1),
  λ e. absurd (omega (arith, e)),
  λ e. absurd (omega (arith, ha.0, hb.1, e)),
  λ e. n (same_rpc_addr a b e),
  λ e. n (same_p2p_addr a b e),
)
