-- ===== src/Proxy/Bodies/Batches.antt =====
-- What is recorded of a batch of requests.
use offckb.Base.{
  ◌≡◌, ◌≢◌, ◌⊎◌, inl, inr, refl, ap, sym, ◌∙◌, Bool, true, false, Option, some, List, [], ◌∷◌, ◌++◌,
  text_eq, list_eqb_iff,
}
use mathlib.Core.Path.{subst}
use offckb.Base.Text.{Text, text}
use offckb.Value.{Value, str, arr, obj, cons, Items, Fields}
use offckb.Value.Paths.{get_key}
use offckb.Proxy.Bodies.{
  Context, Effect, logged, dumped, request_event, dump, send_transaction, by_method,
  handle_one_request, caught, handle_member, handle_members, members, handle_parsed,
  handle_proxy_request_body,
}

abbrev pub IsAmong : {A : Type 0} → List A → A → Type 0
IsAmong [] a = ⊥
IsAmong (x ∷ xs) a = (x ≡ a) ⊎ IsAmong xs a

IsAmong-left : {A : Type 0} (xs ys : List A) (a : A) → IsAmong xs a → IsAmong (xs ++ ys) a
IsAmong-left (x ∷ xs) ys a (inl e) = inl e
IsAmong-left (x ∷ xs) ys a (inr h) = inr (IsAmong-left xs ys a h)
IsAmong-left [] ys a h = absurd h

IsAmong-right : {A : Type 0} (xs ys : List A) (a : A) → IsAmong ys a → IsAmong (xs ++ ys) a
IsAmong-right [] ys a h = h
IsAmong-right (x ∷ xs) ys a h = inr (IsAmong-right xs ys a h)

-- A request that sends a transaction whose hash can be computed and whose file can be written.
abbrev pub Sends : Context → Value → Text → Text → Value → Type 0
Sends c v method hash tx =
    (method ≡ text "send_transaction")
    × ((rest : Items) × (get_key (text "params") v ≡ some (arr (cons tx rest))))
    × (c.hash_transaction tx ≡ some hash)
    × (c.writes hash ≡ true)

abbrev pub IsRecorded : Context → Value → Text → List Effect → Type 0
IsRecorded c v method effects =
    IsAmong effects (logged (text "request " ++ method))
    × ((hash : Text) (tx : Value)
        → Sends c v method hash tx
        → IsAmong effects (dumped hash tx)
          × IsAmong effects (logged (text "send_transaction " ++ hash)))

by_method-Sends :
    (c : Context) (v : Value) (method hash : Text) (tx : Value)
    → Sends c v method hash tx
    → by_method c (some (str method)) (get_key (text "params") v)
      ≡ (dumped hash tx ∷ logged (text "send_transaction " ++ hash) ∷ [], false)
by_method-Sends c v method hash tx (named, (rest, has_params), hashed, written) =
    rw ((list_eqb_iff method (text "send_transaction")).1 named)
      (ap (send_transaction c) has_params ∙ ap (dump c tx) hashed ∙ rw written refl)

-- The effects of a request with a method, from what the method does.
abbrev pub effects_of : Option Value → List Effect × Bool → List Effect
effects_of method sent = caught (request_event method ++ sent.0, sent.1)

by_method-IsRecorded :
    (c : Context) (v : Value) (method : Text)
    → IsRecorded c v method (
        effects_of
          (some (str method))
          (by_method c (some (str method)) (get_key (text "params") v)))
by_method-IsRecorded c v method = (
  inl refl,
  λ hash tx sends.
      subst
        (λ r.
          IsAmong (effects_of (some (str method)) r) (dumped hash tx)
          × IsAmong (effects_of (some (str method)) r) (logged (text "send_transaction " ++ hash)))
        (sym (by_method-Sends c v method hash tx sends)) (inr (inl refl), inr (inr (inl refl))),
)

handle_member-IsRecorded :
    (c : Context) (fs : Fields) (method : Text)
    → get_key (text "method") (obj fs) ≡ some (str method)
    → IsRecorded c (obj fs) method (handle_member c (obj fs))
unfolding handle_one_request
handle_member-IsRecorded c fs method named =
    subst
      (λ o.
        IsRecorded c (obj fs) method
          (effects_of o (by_method c o (get_key (text "params") (obj fs)))))
      (sym named) (by_method-IsRecorded c (obj fs) method)

-- What is recorded stays with more effects around it.
IsRecorded-in :
    (c : Context) (v : Value) (method : Text) (xs ys : List Effect)
    → ((e : Effect) → IsAmong xs e → IsAmong ys e)
    → IsRecorded c v method xs
    → IsRecorded c v method ys
IsRecorded-in c v method xs ys more (request, sends) =
    (more _ request, λ hash tx h. let (file, line) = sends hash tx h in (more _ file, more _ line))

handle_members-IsRecorded :
    (c : Context) (vs : List Value) (fs : Fields) (method : Text)
    → IsAmong vs (obj fs)
    → get_key (text "method") (obj fs) ≡ some (str method)
    → IsRecorded c (obj fs) method (handle_members c vs)
unfolding handle_members
handle_members-IsRecorded c [] fs method member named = absurd member
handle_members-IsRecorded c (v ∷ vs) fs method (inl same) named =
    IsRecorded-in c (obj fs) method (handle_member c v) (handle_members c (v ∷ vs))
      (λ e. IsAmong-left (handle_member c v) (handle_members c vs) e)
      (subst (λ x. IsRecorded c (obj fs) method (handle_member c x)) (sym same)
        (handle_member-IsRecorded c fs method named))
handle_members-IsRecorded c (v ∷ vs) fs method (inr later) named =
    IsRecorded-in c (obj fs) method (handle_members c vs) (handle_members c (v ∷ vs))
      (λ e. IsAmong-right (handle_member c v) (handle_members c vs) e)
      (handle_members-IsRecorded c vs fs method later named)

-- Whatever else a body holds, malformed members and requests that fail included, each request in it
-- that is an object with a method is logged, and each transaction that is sent in it, whose hash can
-- be computed and whose file can be written, is written and logged.
pub handle_proxy_request_body-IsRecorded :
    (c : Context) (body : Text) (v : Value) (fs : Fields) (method : Text)
    → body ≢ []
    → c.parse body ≡ some v
    → IsAmong (members v) (obj fs)
    → get_key (text "method") (obj fs) ≡ some (str method)
    → IsRecorded c (obj fs) method (handle_proxy_request_body c body)
unfolding handle_proxy_request_body
handle_proxy_request_body-IsRecorded c [] v fs method some_text parsed member named =
    absurd (some_text refl)
handle_proxy_request_body-IsRecorded c (u ∷ body) v fs method some_text parsed member named =
    subst (λ o. IsRecorded c (obj fs) method (handle_parsed c o)) (sym parsed)
      (handle_members-IsRecorded c (members v) fs method member named)
