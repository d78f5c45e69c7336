-- ===== src/Proxy/Bodies.antt =====
-- `handleProxyRequestBody`, `handleOneRequest` and `handleProxyResponseBody` of
-- src/tools/proxy-events.ts: what they log and write for a body. Debug and info lines are left out.
pub mod Batches
use offckb.Base.{
  Bool, true, false, not, ◌||◌, Option, none, some, List, [], ◌∷◌, ◌++◌, if◌then◌else◌, ◌==◌,
  text_eq,
}
use offckb.Base.Text.{Text, text, trim, trim_start, lower, starts_with, split_on}
use offckb.Value.{Value, null, str, arr, obj, cons, items, lookup}
use offckb.Value.Paths.{get_key}

-- `JSON.parse`, `hashTransaction`, whether the file of a transaction is written, and a value in a
-- template literal, where `none` is an exception.
pub record Context : Type 0 where
  pub parse : Text → Option Value
  pub hash_transaction : Value → Option Text
  pub writes : Text → Bool
  pub show : Value → Option Text

pub data Effect : Type 0 where
  warned parse_failed : Effect
  logged : Text → Effect
  dumped : Text → Value → Effect

abbrev pub request_event : Option Value → List Effect
request_event (some (str method)) = logged (text "request " ++ method) ∷ []
request_event _ = []

abbrev pub dump : Context → Value → Option Text → List Effect × Bool
dump c tx none = ([], true)
dump c tx (some hash) =
    if c.writes hash
    then (dumped hash tx ∷ logged (text "send_transaction " ++ hash) ∷ [], false)
    else ([], true)

abbrev pub send_transaction : Context → Option Value → List Effect × Bool
send_transaction c (some (arr (cons tx vs))) = dump c tx (c.hash_transaction tx)
send_transaction c _ = (warned ∷ [], false)

abbrev pub by_method : Context → Option Value → Option Value → List Effect × Bool
by_method c (some (str method)) params =
    if method == text "send_transaction" then send_transaction c params else ([], false)
by_method c _ params = ([], false)

-- `handleOneRequest`, and whether it throws.
unfoldable pub handle_one_request : Context → Value → List Effect × Bool
unfolding get_key lookup text
handle_one_request c v =
    let (sent, threw) = by_method c (get_key (text "method") v) (get_key (text "params") v) in
    (request_event (get_key (text "method") v) ++ sent, threw)

abbrev pub caught : List Effect × Bool → List Effect
caught (effects, threw) = effects ++ (if threw then warned ∷ [] else [])

abbrev pub handle_member : Context → Value → List Effect
handle_member c (obj fs) = caught (handle_one_request c (obj fs))
handle_member c _ = warned ∷ []

unfoldable pub handle_members : Context → List Value → List Effect
unfolding handle_one_request
handle_members c [] = []
handle_members c (v ∷ vs) = handle_member c v ++ handle_members c vs

-- `Array.isArray(parsed) ? parsed : [parsed]`
abbrev pub members : Value → List Value
members (arr vs) = items vs
members v = v ∷ []

abbrev pub handle_parsed : Context → Option Value → List Effect
handle_parsed c none = parse_failed ∷ []
handle_parsed c (some v) = handle_members c (members v)

unfoldable pub handle_proxy_request_body : Context → Text → List Effect
unfolding handle_members items
handle_proxy_request_body c [] = []
handle_proxy_request_body c (u ∷ body) = handle_parsed c (c.parse (u ∷ body))

-- `value ?? fallback` in a template literal.
abbrev pub shown_or : Context → Text → Option Value → Option Text
shown_or c fallback none = some fallback
shown_or c fallback (some null) = some fallback
shown_or c fallback (some v) = c.show v

abbrev pub error_event : Option Text → Option Text → Option Text
error_event (some code) (some message) = some (text "error [" ++ (code ++ (text "] " ++ message)))
error_event _ _ = none

-- An exception within an entry ends the loop.
abbrev pub then_entries : Option Text → List Effect → List Effect
then_entries none rest = parse_failed ∷ []
then_entries (some line) rest = warned ∷ logged line ∷ rest

abbrev pub by_error : Context → Option Value → List Effect → List Effect
by_error c none rest = rest
by_error c (some null) rest = rest
by_error c (some e) rest =
    then_entries
      (error_event (shown_or c (text "unknown") (get_key (text "code") e))
        (shown_or c (text "unknown error") (get_key (text "message") e)))
      rest

unfoldable pub handle_entries : Context → List Value → List Effect
unfolding get_key lookup text
handle_entries c [] = []
handle_entries c (v ∷ vs) = by_error c (get_key (text "error") v) (handle_entries c vs)

abbrev pub handle_parsed_response : Context → Option Value → List Effect
handle_parsed_response c none = parse_failed ∷ []
handle_parsed_response c (some v) = handle_entries c (members v)

abbrev pub first_part : List Text → Text
first_part [] = []
first_part (part ∷ parts) = part

-- `(contentType ?? '').split(';')[0].trim().toLowerCase()`
abbrev pub media_type : Option Text → Text
media_type none = text ""
media_type (some content_type) = lower (trim (first_part (split_on b';' content_type)))

unfoldable pub handle_proxy_response_body : Context → Text → Option Text → List Effect
unfolding handle_entries items trim starts_with lower split_on text
handle_proxy_response_body c [] content_type = []
handle_proxy_response_body c (u ∷ res) content_type =
    if media_type content_type == text "application/json"
    then (if starts_with (trim (u ∷ res)) (b'{' ∷ []) || starts_with (trim (u ∷ res)) (b'[' ∷ [])
        then handle_parsed_response c (c.parse (u ∷ res))
        else [])
    else []
