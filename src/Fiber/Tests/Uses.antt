-- ===== src/Fiber/Tests/Uses.antt =====
-- The key material of a node, a clean, and the status of a node.
use offckb.Base.{◌≡◌, ◌↔◌, refl, true, false, none, some, [], ok}
use offckb.Base.Text.{text}
use offckb.Fiber.EnvLock.{no_process}
use offckb.Fiber.Manager.Checks.{LockScript}
use offckb.Fiber.Accounts.{KeyFiles, ensure_node_key_material}
use offckb.Fiber.Accounts.Laws.{IsProvisioned, ensure_node_key_material-IsProvisioned}
use offckb.Fiber.Clean.{Snapshot, Inputs, fiber_clean}
use offckb.Fiber.Clean.Laws.{MayDelete, fiber_clean-MayDelete}
use offckb.Fiber.Status.{running, NodeInfo, node_status}
use offckb.Fiber.Status.Laws.{Answers, node_status_iff}

abbrev small_lock : LockScript
small_lock = record { code_hash = text "0xA"; hash_type = text "type"; args = text "0x1" }

abbrev kept_keys : KeyFiles
kept_keys = record { ckb_key = some (text "k"); password = some (text "p") }

keeps_keys : ensure_node_key_material [] 1 (text "new") kept_keys ≡ ok (false, kept_keys)
unfolding ensure_node_key_material
keeps_keys = refl

ensure_node_key_material-IsProvisioned_example :
    IsProvisioned [] 1 (text "new") kept_keys (false, kept_keys)
ensure_node_key_material-IsProvisioned_example =
    ensure_node_key_material-IsProvisioned [] 1 (text "new") kept_keys (false, kept_keys) keeps_keys

abbrev quiet : Snapshot
quiet = record { manager = some 5; daemon = none; signals = λ pid. no_process; store_locks = [] }

abbrev small_clean : Inputs
small_clean = record {
  data_only = false;
  yes' = true;
  lock_acquired = true;
  root = text "/d";
  root_exists = true;
  stores = [];
  before = quiet;
  confirmed = false;
  after = quiet;
}

fiber_clean-MayDelete_example : MayDelete small_clean false (fiber_clean small_clean).0
fiber_clean-MayDelete_example = fiber_clean-MayDelete small_clean

abbrev small_answer : NodeInfo
small_answer = record { pubkey = some (text "0xB"); lock = some small_lock }

node_status_iff_example :
    ((node_status true (some small_answer) (some (text "0xb")) small_lock).0 ≡ running)
    ↔ Answers (some small_answer) (some (text "0xb")) small_lock
node_status_iff_example = node_status_iff true (some small_answer) (some (text "0xb")) small_lock
