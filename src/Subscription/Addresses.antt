-- ===== src/Subscription/Addresses.antt =====
-- `parseTcpListenAddress` and `devnetTcpListenAddress` of src/devnet/log-subscription.ts.
use mathlib.Core.Path.{subst}
use offckb.Base.{
  ℕ, ◌≤◌, ◌≡◌, ◌↔◌, inl, inr, refl, ap, ◌∙◌, Bool, true, false, not, ◌&&◌, Option, none, some, [],
  ◌∷◌, ◌++◌, if◌then◌else◌, leb, eqb, every, Bool-cases, Option-cases, eqb_iff, arith,
}
use offckb.Base.Text.{Text, text, trim, is_empty, is_digit, all_digits, digits_number}
use offckb.Value.{Value, str, lookup}
use offckb.Value.Paths.{get_key}
use offckb.Logs.{is_terminator}
use offckb.Chain.Lines.{after_prefix}

-- `(.+):(\d+)` takes as much as it can for the host, so the last colon splits.
unfoldable pub last_colon : Text → Option (Text × Text)
last_colon [] = none
last_colon (c ∷ s) = elim (last_colon s) [
  | some (before, after) ↦ some (c ∷ before, after)
  | none ↦ if eqb c b':' then some ([], s) else none
]

pub record Endpoint : Type 0 where
  pub host : Text
  pub port : ℕ

abbrev pub endpoint_of : Text → Option ℕ → Option Endpoint
endpoint_of host none = none
endpoint_of host (some port) =
    if leb 1 port && leb port 65535 then some (record { host = host; port = port }) else none

abbrev pub is_host : Text → Bool
is_host [] = false
is_host (c ∷ s) = every (λ d. not (is_terminator d)) (c ∷ s)

abbrev pub split_endpoint : Option (Text × Text) → Option Endpoint
split_endpoint none = none
split_endpoint (some (host, digits)) =
    if is_host host then endpoint_of host (digits_number digits) else none

-- `parseTcpListenAddress`
unfoldable pub parse_tcp_listen_address : Text → Option Endpoint
unfolding last_colon digits_number
parse_tcp_listen_address address = split_endpoint (last_colon address)

-- `.replace(/^0\.0\.0\.0:/, '127.0.0.1:')`
abbrev pub dialable : Text → Option Text → Text
dialable address none = address
dialable address (some rest) = text "127.0.0.1:" ++ rest

abbrev pub some_address : Text → Option Text
some_address address =
    if is_empty address
    then none
    else some (dialable address (after_prefix (text "0.0.0.0:") address))

abbrev pub listen_address_of : Option Value → Option Text
listen_address_of (some (str s)) = some_address (trim s)
listen_address_of _ = none

abbrev pub rpc_address : Option Value → Option Text
rpc_address none = none
rpc_address (some rpc) = listen_address_of (get_key (text "tcp_listen_address") rpc)

abbrev pub address_in_config : Option Value → Option Text
address_in_config none = none
address_in_config (some config) = rpc_address (get_key (text "rpc") config)

-- `devnetTcpListenAddress`, on ckb.toml if it is there and its parse, where `none` is an exception.
unfoldable pub devnet_tcp_listen_address : (Text → Option Value) → Option Text → Option Text
unfolding get_key lookup text trim after_prefix
devnet_tcp_listen_address parse none = none
devnet_tcp_listen_address parse (some source) = address_in_config (parse source)

-- The address is a host, a colon and a port.
abbrev pub IsAddress : Text → Endpoint → Type 0
IsAddress address e =
    (digits : Text) × (address ≡ e.host ++ b':' ∷ digits)
    × (is_host e.host ≡ true)
    × (digits_number digits ≡ some e.port)
    × (1 ≤ e.port)
    × (e.port ≤ 65535)

last_colon-eq-some :
    (s before after : Text) → last_colon s ≡ some (before, after) → s ≡ before ++ b':' ∷ after
unfolding last_colon
last_colon-eq-some [] before after h = cc
last_colon-eq-some (c ∷ s) before after h = elim (Option-cases (last_colon s)) [
  | inr ((b, a), e) ↦
      let same : ◌≡◌ {A = Option (Text × Text)} (some (c ∷ b, a)) (some (before, after)) =
        rw e at h in
      cc (last_colon-eq-some s b a e, same)
  | inl missing ↦ elim (Bool-cases (eqb c b':')) [
    | inl colon ↦
        let same : ◌≡◌ {A = Option (Text × Text)} (some ([], s)) (some (before, after)) =
          rw (missing, colon) at h in
        let empty : ◌≡◌ {A = Text} [] before = cc in
        let rest : s ≡ after = cc in
        (λ i. (eqb_iff c b':').0 colon i ∷ rest i) ∙ ap (λ b. b ++ b':' ∷ after) empty
    | inr other ↦ cc (rw (missing, other) at h)
  ]
]

last_colon-digits : (s : Text) → all_digits s ≡ true → last_colon s ≡ none
unfolding last_colon all_digits is_digit
last_colon-digits [] h = refl
last_colon-digits (c ∷ s) h =
    rw (last_colon-digits s (ground (arith, h)), last_colon)
      (rw (no_colon c (ground (arith, h))) refl)
  where
    no_colon : (c : ℕ) → is_digit c ≡ true → eqb c b':' ≡ false
    no_colon c d = ground (arith, d)

last_colon-append :
    (before after : Text)
    → last_colon after ≡ none
    → last_colon (before ++ b':' ∷ after) ≡ some (before, after)
unfolding last_colon
last_colon-append [] after h = rw h refl
last_colon-append (c ∷ s) after h = rw (last_colon-append s after h) refl

digits_number-all : (s : Text) (n : ℕ) → digits_number s ≡ some n → all_digits s ≡ true
unfolding digits_number
digits_number-all [] n h = cc
digits_number-all (c ∷ s) n h = elim (Bool-cases (all_digits (c ∷ s))) [
  | inl d ↦ d
  | inr d ↦ cc (rw d at h)
]

endpoint_of-eq-some :
    (host : Text) (port : Option ℕ) (e : Endpoint)
    → endpoint_of host port ≡ some e
    → (host ≡ e.host) × (port ≡ some e.port) × (1 ≤ e.port) × (e.port ≤ 65535)
endpoint_of-eq-some host none e h = cc
endpoint_of-eq-some host (some port) e h = elim (Bool-cases (leb 1 port && leb port 65535)) [
  | inr out ↦ cc (rw out at h)
  | inl within ↦
      let same : ◌≡◌ {A = Option Endpoint} (some (record { host = host; port = port })) (some e) =
        rw within at h in
      let same_host : host ≡ e.host = cc in
      let same_port : port ≡ e.port = cc in
      (
        same_host,
        ap some same_port,
        ground (arith, within, same_port),
        ground (arith, within, same_port),
      )
]

split_endpoint-eq-some :
    (parts : Option (Text × Text)) (e : Endpoint)
    → split_endpoint parts ≡ some e
    → (digits : Text) × (parts ≡ some (e.host, digits))
      × (is_host e.host ≡ true)
      × (digits_number digits ≡ some e.port)
      × (1 ≤ e.port)
      × (e.port ≤ 65535)
split_endpoint-eq-some none e h = cc
split_endpoint-eq-some (some (host, digits)) e h = elim (Bool-cases (is_host host)) [
  | inr bad ↦ cc (rw bad at h)
  | inl good ↦
      let (same, port, lo, hi) = endpoint_of-eq-some host (digits_number digits) e (rw good at h) in
      (
        digits,
        ap (λ x. some (x, digits)) same,
        subst (λ x. is_host x ≡ true) same good,
        port,
        lo,
        hi,
      )
]

-- An address is accepted exactly when it is a host that is not empty and has no line break, a colon,
-- and the decimal digits of a port from 1 to 65535; the host may hold colons itself.
pub parse_tcp_listen_address_iff :
    (address : Text) (e : Endpoint)
    → (parse_tcp_listen_address address ≡ some e) ↔ IsAddress address e
unfolding parse_tcp_listen_address
parse_tcp_listen_address_iff address e = (
  λ h.
      let (digits, parts, host, port, lo, hi) = split_endpoint-eq-some (last_colon address) e h in
      (digits, last_colon-eq-some address e.host digits parts, host, port, lo, hi),
  λ (digits, shape, host, port, lo, hi).
      ap split_endpoint (
        ap last_colon shape
        ∙ last_colon-append e.host digits
            (last_colon-digits digits (digits_number-all digits e.port port)))
      ∙ rw host (rw port (in_range e.host e.port lo hi)),
)
  where
    in_range :
        (host : Text) (port : ℕ)
        → 1 ≤ port
        → port ≤ 65535
        → endpoint_of host (some port) ≡ some (record { host = host; port = port })
    in_range host port lo hi = ground (arith, lo, hi)
