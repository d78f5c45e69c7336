-- ===== src/Proxy/Tests.antt =====
-- Events on a small log.
use offckb.Base.{inl, list_eqb, ◌≡◌, refl, inr, true, false, none, some, [], ◌∷◌}
use offckb.Value.{Value, null, str, arr, obj, nil, cons, items, Fields, field, end, lookup}
use offckb.Value.Paths.{get_key}
use offckb.Proxy.Bodies.{Context, members, handle_proxy_request_body}
use offckb.Proxy.Bodies.Batches.{IsAmong, IsRecorded, handle_proxy_request_body-IsRecorded}
use offckb.Base.Text.{Text, text}
use offckb.Proxy.EventLog.{Files, Calls, Log, event}
use offckb.Proxy.Rollover.{Keeps, event-Keeps, all_succeed, IsCapped, event-IsCapped}

abbrev two_lines : Text
two_lines = 97 ∷ 10 ∷ 98 ∷ []

abbrev small_files : Files
small_files = record { log = some two_lines; archive = some (97 ∷ []); backup = none }

abbrev small_log : Log
small_log = record { dir_ready = true; size = some 3 }

-- The archive can be moved and the log cannot.
abbrev no_move : Calls
no_move = record all_succeed { move_log = false }

event-Keeps_example :
    Keeps (98 ∷ 10 ∷ []) small_files (event no_move 4 (98 ∷ 10 ∷ []) (small_files, small_log)).0
event-Keeps_example = event-Keeps no_move 4 (98 ∷ 10 ∷ []) small_files small_log

event-IsCapped_example :
    IsCapped 4 (98 ∷ 10 ∷ []) (event all_succeed 4 (98 ∷ 10 ∷ []) (small_files, small_log))
event-IsCapped_example = event-IsCapped 4 (98 ∷ 10 ∷ []) small_files small_log (inr refl)

-- A batch of a malformed member and a transaction that is sent.
abbrev sending : Fields
sending =
    field (text "method") (str (text "send_transaction"))
      (field (text "params") (arr (cons null nil)) end)

abbrev small_batch : Value
small_batch = arr (cons null (cons (obj sending) nil))

abbrev small_context : Context
small_context = record {
  parse = λ s. some small_batch;
  hash_transaction = λ tx. some (text "0x1");
  writes = λ hash. true;
  show = λ v. some (text "shown");
}

sending-IsAmong : IsAmong (members small_batch) (obj sending)
unfolding items
sending-IsAmong = inr (inl refl)

sending_named : get_key (text "method") (obj sending) ≡ some (str (text "send_transaction"))
unfolding get_key lookup text list_eqb
sending_named = refl

handle_proxy_request_body-IsRecorded_example :
    IsRecorded small_context
      (obj sending)
      (text "send_transaction")
      (handle_proxy_request_body small_context (91 ∷ []))
handle_proxy_request_body-IsRecorded_example =
    handle_proxy_request_body-IsRecorded small_context (91 ∷ []) small_batch sending
      (text "send_transaction") (λ h. cc) refl sending-IsAmong sending_named
