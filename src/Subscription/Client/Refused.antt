-- ===== src/Subscription/Client/Refused.antt =====
-- A client whose dials are all refused.
use mathlib.Core.Path.{subst}
use offckb.Base.{
  ℕ, zero, suc, ◌+◌, ◌<◌, ◌≡◌, refl, ap, sym, ◌∙◌, Bool, true, false, ◌||◌, some, [], if◌then◌else◌,
  ltb, arith,
}
use offckb.Subscription.Addresses.{Endpoint}
use offckb.Subscription.Client.{
  dialling, failed, Client, new_client, fail, connect, on_failure, on_error, subscribe,
}

-- A refused dial, and then as many times the timer and another refused dial.
unfoldable pub refused : ℕ → ℕ → Client → Client
unfolding connect on_error
refused max zero s = on_error max s
refused max (suc n) s = refused max n (connect (on_error max s))

-- A client that is dialling and has not been connected or closed.
abbrev pub IsWaiting : Client → Type 0
IsWaiting s =
    (s.closed ≡ false) × (s.ever_connected ≡ false) × (s.failed_reported ≡ false) × (s.errors ≡ 0)

abbrev pub Retries : Client → Type 0
Retries s = (s.errors ≡ 0) × (s.retry_timer ≡ true)

abbrev pub GivesUp : ℕ → Client → Type 0
GivesUp max s = (s.errors ≡ 1) × (s.failed_reported ≡ true) × (s.attempts ≡ max)

on_error-waiting :
    (max : ℕ) (s : Client)
    → IsWaiting s
    → on_error max s ≡ on_failure max (record s { connection = failed })
unfolding on_error
on_error-waiting max s (opened, never, unreported, none_yet) =
    ap
      (λ b.
        if b
        then record s { connection = failed }
        else on_failure max (record s { connection = failed }))
      (both_false s.closed s.ever_connected opened never)
  where
    both_false : (a b : Bool) → a ≡ false → b ≡ false → a || b ≡ false
    both_false a b h k = ground (arith, h, k)

abbrev retrying : Client → Client
retrying s = record s { connection = failed; retry_timer = true }

on_error-below :
    (max : ℕ) (s : Client) → IsWaiting s → s.attempts < max → on_error max s ≡ retrying s
unfolding on_error fail
on_error-below max s waiting lt =
    on_error-waiting max s waiting
    ∙ ap (λ b. if b then retrying s else fail (record s { connection = failed })) (below lt)
  where
    below : s.attempts < max → ltb s.attempts max ≡ true
    below h = ground (arith, h)

abbrev redialled : Client → Client
redialled s = record s {
  connection = dialling;
  retry_timer = false;
  attempts = suc s.attempts;
  buffer = [];
}

connect-retrying : (s : Client) → IsWaiting s → connect (retrying s) ≡ redialled s
unfolding connect
connect-retrying s (opened, never, unreported, none_yet) =
    ap (λ b. if b then retrying s else redialled s) opened

on_error-last :
    (max : ℕ) (s : Client) → IsWaiting s → s.attempts ≡ max → GivesUp max (on_error max s)
unfolding on_error fail
on_error-last max s (opened, never, unreported, none_yet) same =
    subst (GivesUp max)
      (sym (
        on_error-waiting max s (opened, never, unreported, none_yet)
        ∙ ap (λ b. if b then retrying s else fail (record s { connection = failed })) (spent same)
        ∙ ap
            (λ b.
              if b
              then record s { connection = failed }
              else record s { connection = failed; failed_reported = true; errors = suc s.errors })
            (quiet s.failed_reported s.closed unreported opened)))
      (ap suc none_yet, refl, same)
  where
    spent : s.attempts ≡ max → ltb s.attempts max ≡ false
    spent h = ground (arith, h)

    quiet : (a b : Bool) → a ≡ false → b ≡ false → a || b ≡ false
    quiet a b h k = ground (arith, h, k)

refused-Retries :
    (max n : ℕ) (s : Client) → IsWaiting s → s.attempts + n < max → Retries (refused max n s)
unfolding refused
refused-Retries max zero s waiting lt =
    subst Retries (sym (on_error-below max s waiting (omega (arith, lt)))) (waiting.3, refl)
refused-Retries max (suc n) s waiting lt =
    subst (λ t. Retries (refused max n t))
      (sym (
        ap connect (on_error-below max s waiting (omega (arith, lt))) ∙ connect-retrying s waiting))
      (refused-Retries max n (redialled s) waiting (omega (arith, lt)))

refused-GivesUp :
    (max n : ℕ) (s : Client) → IsWaiting s → s.attempts + n ≡ max → GivesUp max (refused max n s)
unfolding refused
refused-GivesUp max zero s waiting same = on_error-last max s waiting (omega (arith, same))
refused-GivesUp max (suc n) s waiting same =
    subst (λ t. GivesUp max (refused max n t))
      (sym (
        ap connect (on_error-below max s waiting (omega (arith, same)))
        ∙ connect-retrying s waiting))
      (refused-GivesUp max n (redialled s) waiting (omega (arith, same)))

-- When each dial is refused, a client that may dial `n + 1` times keeps a retry pending and reports
-- nothing at the refusals before, and reports the failure, once, at the last one.
pub refused-reported :
    (n : ℕ) (endpoint : Endpoint)
    → ((k : ℕ) → k < n → Retries (refused (suc n) k (subscribe (some endpoint))))
      × GivesUp (suc n) (refused (suc n) n (subscribe (some endpoint)))
unfolding subscribe connect
refused-reported n endpoint = (
  λ k lt.
      refused-Retries (suc n) k (connect new_client) (refl, refl, refl, refl) (omega (arith, lt)),
  refused-GivesUp (suc n) n (connect new_client) (refl, refl, refl, refl) (omega arith),
)
