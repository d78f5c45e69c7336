-- ===== src/Fiber/Status.antt =====
-- src/fiber/status.ts: what `offckb fiber status` reports of the nodes. The answers of the nodes, the
-- keys and the accounts are inputs.
pub mod Laws
use offckb.Base.{
  ℕ, Bool, true, false, not, ◌&&◌, ◌||◌, Option, none, some, List, [], ◌∷◌, ◌++◌, map,
  if◌then◌else◌, ltb, leb, length, ◌-◌, zero, suc, ◌==◌, nat_eq, text_eq,
}
use offckb.Base.Text.{Text, text, lower, is_empty, includes}
use offckb.Value.{Number, integer, pos}
use offckb.Fiber.Manager.Checks.{LockScript, lock_matches}
use offckb.Daemon.PidFiles.{PidMetadata, positive}

pub data NodeStatus : Type 0 where
  starting running stopped unknown conflict : NodeStatus

pub data Managed : Type 0 where
  managed unmanaged unsure : Managed

pub data Reason : Type 0 where
  no_key no_pubkey pubkey_mismatch no_lock lock_mismatch : Reason

-- `existing.pid === runtime.managerPid`
abbrev pub names : ℕ → PidMetadata → Bool
names manager m = elim (positive m.pid) [ none ↦ false | some pid ↦ pid == manager ]

abbrev pub if_verified : Bool → Managed
if_verified ok' = if ok' then managed else unmanaged

abbrev pub by_command_line : Option Text → Managed
by_command_line none = unsure
by_command_line (some line) = if includes line (text "offckb") then managed else unmanaged

abbrev pub by_node_daemon : ℕ → Bool → Option Text → Option PidMetadata → Managed
by_node_daemon manager verified line none = by_command_line line
by_node_daemon manager verified line (some m) =
    if names manager m then if_verified verified else by_command_line line

-- The two PID files, whether the process that each names passes for that daemon, and the command
-- line of the manager.
pub record Ownership : Type 0 where
  pub manager : Option ℕ
  pub is_alive : ℕ → Option Bool
  pub fiber_daemon : Option PidMetadata
  pub fiber_verified : Bool
  pub node_daemon : Option PidMetadata
  pub node_verified : Bool
  pub command_line : Option Text

abbrev pub by_pid_files : Ownership → ℕ → Option PidMetadata → Managed
by_pid_files o manager none = by_node_daemon manager o.node_verified o.command_line o.node_daemon
by_pid_files o manager (some m) =
    if names manager m then if_verified o.fiber_verified else unmanaged

abbrev pub by_liveness : Ownership → ℕ → Option Bool → Managed
by_liveness o manager none = unsure
by_liveness o manager (some false) = unmanaged
by_liveness o manager (some true) = by_pid_files o manager o.fiber_daemon

abbrev pub by_manager : Ownership → Option ℕ → Managed
by_manager o none = unmanaged
by_manager o (some manager) = by_liveness o manager (o.is_alive manager)

-- `resolveOffckbManaged`
unfoldable pub resolve_offckb_managed : Ownership → Managed
unfolding includes text
resolve_offckb_managed o = by_manager o o.manager

-- `node_info`, where a public key that is no text is `none`.
pub record NodeInfo : Type 0 where
  pub pubkey : Option Text
  pub lock : Option LockScript

abbrev pub pubkey_reasons : Text → Option Text → List Reason
pubkey_reasons expected none = no_pubkey ∷ []
pubkey_reasons expected (some []) = no_pubkey ∷ []
pubkey_reasons expected (some (c ∷ s)) =
    if lower (c ∷ s) == expected then [] else pubkey_mismatch ∷ []

abbrev pub lock_reasons : LockScript → Option LockScript → List Reason
lock_reasons expected none = no_lock ∷ []
lock_reasons expected (some lock) =
    if lock_matches (some lock) expected then [] else lock_mismatch ∷ []

-- `conflict`, set with the reasons of a mismatch.
abbrev pub is_conflict : List Reason → Bool
is_conflict [] = false
is_conflict (pubkey_mismatch ∷ rs) = true
is_conflict (lock_mismatch ∷ rs) = true
is_conflict (no_key ∷ rs) = is_conflict rs
is_conflict (no_pubkey ∷ rs) = is_conflict rs
is_conflict (no_lock ∷ rs) = is_conflict rs

abbrev pub no_reasons : List Reason → Bool
no_reasons [] = true
no_reasons (_ ∷ _) = false

abbrev pub judged : List Reason → NodeStatus × List Reason
judged rs = (if is_conflict rs then conflict else if no_reasons rs then running else unknown, rs)

-- The key that is expected, where `none` is a secret that cannot be read.
abbrev pub answered : Option Text → LockScript → NodeInfo → NodeStatus × List Reason
answered none lock info = (unknown, no_key ∷ [])
answered (some key) lock info =
    judged (pubkey_reasons key info.pubkey ++ lock_reasons lock info.lock)

-- The body of the loop of `collectFiberStatus` for one node: its status and the reasons.
unfoldable pub node_status :
    Bool → Option NodeInfo → Option Text → LockScript → NodeStatus × List Reason
unfolding lower lock_matches
node_status manager_starting none key lock = (if manager_starting then starting else stopped, [])
node_status manager_starting (some info) key lock = answered key lock info

-- `runtime != null && offckb !== 'no' && runtime.status === 'starting'`
abbrev pub is_managed : Managed → Bool
is_managed unmanaged = false
is_managed _ = true

unfoldable pub manager_starting : Ownership → Bool → Bool
unfolding resolve_offckb_managed
manager_starting o runtime_starting = elim o.manager [
  | none ↦ false
  | some manager ↦ is_managed (resolve_offckb_managed o) && runtime_starting
]

pub record StatusEntry : Type 0 where
  pub id : ℕ
  pub status : NodeStatus
  pub offckb : Managed
  pub reasons : List Reason

-- `collectFiberStatus`, its nodes.
unfoldable pub collect_fiber_status :
    Ownership
    → Bool
    → (ℕ → Option NodeInfo)
    → (ℕ → Option Text)
    → (ℕ → LockScript)
    → List ℕ
    → List StatusEntry
unfolding node_status manager_starting
collect_fiber_status o runtime_starting infos keys locks [] = []
collect_fiber_status o runtime_starting infos keys locks (id ∷ ids) =
    let (status, reasons) =
      node_status (manager_starting o runtime_starting) (infos id) (keys id) (locks id) in
    record { id = id; status = status; offckb = resolve_offckb_managed o; reasons = reasons }
    ∷ collect_fiber_status o runtime_starting infos keys locks ids

-- `pad(value, width)`
unfoldable pub blanks : ℕ → Text
blanks zero = []
blanks (suc n) = 32 ∷ blanks n

unfoldable pub pad : Text → ℕ → Text
unfolding blanks
pad value width = if leb width (length value) then value else value ++ blanks (width - length value)
