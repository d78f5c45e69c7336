-- ===== src/Subscription/Client.antt =====
-- `subscribeToNodeLogs` of src/devnet/log-subscription.ts: its variables are the state, and each
-- callback is a function on it. A connection reports at most one error.
pub mod Reached
pub mod Refused
pub mod Chunks
use offckb.Base.{
  ℕ, zero, suc, Bool, true, false, ◌||◌, Option, none, some, List, [], ◌∷◌, ◌++◌, if◌then◌else◌,
  ltb,
}
use offckb.Base.Text.{Text}
use offckb.Logs.{split_lines}
use offckb.Subscription.{Platform, CkbLogEntry, entries_of}
use offckb.Subscription.Addresses.{Endpoint}

-- The current connection: none was made, one that is being made, that is open, that has failed, or
-- that was closed.
pub data Connection : Type 0 where
  unmade dialling connected failed gone : Connection

pub record Client : Type 0 where
  pub connection : Connection
  pub buffer : Text
  pub closed : Bool
  pub attempts : ℕ
  pub failed_reported : Bool
  pub ever_connected : Bool
  pub retry_timer : Bool
  -- what was handed to `onEntry`, and how often `onError` was called
  pub entries : List CkbLogEntry
  pub errors : ℕ

abbrev pub new_client : Client
new_client = record {
  connection = unmade;
  buffer = [];
  closed = false;
  attempts = 0;
  failed_reported = false;
  ever_connected = false;
  retry_timer = false;
  entries = [];
  errors = 0;
}

unfoldable pub fail : Client → Client
fail s =
    if s.failed_reported || s.closed
    then s
    else record s { failed_reported = true; errors = suc s.errors }

-- `connect`, where an endpoint is known.
unfoldable pub connect : Client → Client
connect s = if s.closed then s else record s {
  retry_timer = false;
  attempts = suc s.attempts;
  connection = dialling;
  buffer = [];
}

unfoldable pub on_connect : Client → Client
on_connect s = record s { connection = connected; ever_connected = true }

unfoldable pub on_data : Platform → List ℕ → Client → Client
unfolding split_lines entries_of
on_data p data' s =
    let (lines, rest) = split_lines (s.buffer ++ p.to_text data') in
    record s { buffer = rest; entries = s.entries ++ entries_of p lines }

abbrev pub on_failure : ℕ → Client → Client
on_failure max s = if ltb s.attempts max then record s { retry_timer = true } else fail s

unfoldable pub on_error : ℕ → Client → Client
unfolding fail
on_error max s =
    if s.closed || s.ever_connected
    then record s { connection = failed }
    else on_failure max (record s { connection = failed })

unfoldable pub on_close : Client → Client
on_close s = record s { connection = gone }

-- `close()` of the handle.
unfoldable pub close : Client → Client
close s = record s { closed = true; retry_timer = false; connection = gone }

-- The client after `subscribeToNodeLogs`, which dials at once.
unfoldable pub subscribe : Option Endpoint → Client
unfolding fail connect
subscribe none = fail new_client
subscribe (some endpoint) = connect new_client
