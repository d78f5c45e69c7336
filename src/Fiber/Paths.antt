-- ===== src/Fiber/Paths.antt =====
-- The numbers, ports and addresses of src/fiber/paths.ts.
pub mod Ports
use offckb.Base.{ℕ, ◌+◌, List, [], ◌++◌}
use offckb.Base.Text.{Text, text, decimal}

abbrev pub min_fiber_nodes : ℕ
min_fiber_nodes = 1

abbrev pub max_fiber_nodes : ℕ
max_fiber_nodes = 16

abbrev pub default_fiber_nodes : ℕ
default_fiber_nodes = 2

abbrev pub fiber_account_offset : ℕ
fiber_account_offset = 2

abbrev pub fiber_rpc_port_base : ℕ
fiber_rpc_port_base = 21713

abbrev pub fiber_p2p_port_base : ℕ
fiber_p2p_port_base = 8343

abbrev pub udt_issuer_account_index : ℕ
udt_issuer_account_index = 19

unfoldable pub fiber_account_index : ℕ → ℕ
fiber_account_index node_id = node_id + fiber_account_offset

unfoldable pub fiber_rpc_port : ℕ → ℕ
fiber_rpc_port node_id = fiber_rpc_port_base + node_id

unfoldable pub fiber_p2p_port : ℕ → ℕ
fiber_p2p_port node_id = fiber_p2p_port_base + node_id

unfoldable pub fiber_rpc_addr : ℕ → Text
unfolding text
fiber_rpc_addr node_id = text "127.0.0.1:" ++ decimal (fiber_rpc_port node_id)

unfoldable pub fiber_p2p_addr : ℕ → Text
unfolding text
fiber_p2p_addr node_id = text "/ip4/127.0.0.1/tcp/" ++ decimal (fiber_p2p_port node_id)
