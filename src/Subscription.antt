-- ===== src/Subscription.antt =====
-- src/devnet/log-subscription.ts: the client of the node's log subscription. `JSON.parse`, the TOML
-- library and the decoding of one chunk of bytes are parameters.
pub mod Addresses
pub mod Client
mod Tests
use offckb.Base.{
  ℕ, Bool, true, false, not, Option, none, some, List, [], ◌∷◌, ◌++◌, if◌then◌else◌, ◌==◌, text_eq,
}
use offckb.Base.Text.{Text, text, trim, is_empty}
use offckb.Value.{Value, str, arr, obj, lookup}
use offckb.Value.Paths.{get_key}

pub record Platform : Type 0 where
  -- `JSON.parse`, where `none` is an exception, and `data.toString('utf8')`
  pub parse : Text → Option Value
  pub to_text : List ℕ → Text

pub record CkbLogEntry : Type 0 where
  pub message : Text
  pub level : Text
  pub target : Text
  pub date : Text

pub data Message : Type 0 where
  subscribed : Text → Message
  logged : CkbLogEntry → Message

-- `value != null && typeof value === 'object'`
abbrev pub as_object : Option Value → Option Value
as_object (some (obj fs)) = some (obj fs)
as_object (some (arr vs)) = some (arr vs)
as_object _ = none

abbrev pub text_or_empty : Option Value → Text
text_or_empty (some (str s)) = s
text_or_empty _ = text ""

abbrev pub logged_entry : Value → Option Value → Option Value → Option Message
logged_entry v (some (str message)) (some (str target)) = some (
    logged (record {
      message = message;
      level = text_or_empty (get_key (text "level") v);
      target = target;
      date = text_or_empty (get_key (text "date") v);
    }))
logged_entry v _ _ = none

abbrev pub entry_in : Option Value → Option Message
entry_in none = none
entry_in (some v) = logged_entry v (get_key (text "message") v) (get_key (text "target") v)

abbrev pub entry_of_params : Option Value → Option Message
entry_of_params none = none
entry_of_params (some v) = entry_in (as_object (get_key (text "result") v))

abbrev pub notification : Option Value → Option Value → Option Message
notification (some (str method)) params =
    if method == text "subscribe" then entry_of_params (as_object params) else none
notification _ params = none

abbrev pub message_of : Value → Option Value → Option Value → Option Message
message_of v (some (str result)) (some id) = some (subscribed result)
message_of v _ _ = notification (get_key (text "method") v) (get_key (text "params") v)

abbrev pub read_message : Option Value → Option Message
read_message none = none
read_message (some v) = message_of v (get_key (text "result") v) (get_key (text "id") v)

unfoldable pub parse_subscription_message : Platform → Text → Option Message
unfolding get_key lookup text
parse_subscription_message p line = read_message (as_object (p.parse line))

abbrev pub entry_from : Option Message → List CkbLogEntry → List CkbLogEntry
entry_from (some (logged e)) es = e ∷ es
entry_from (some (subscribed id)) es = es
entry_from none es = es

-- The entries in the lines of a chunk.
unfoldable pub entries_of : Platform → List Text → List CkbLogEntry
unfolding parse_subscription_message trim
entries_of p [] = []
entries_of p (line ∷ lines) =
    if is_empty (trim line)
    then entries_of p lines
    else entry_from (parse_subscription_message p line) (entries_of p lines)
