-- ===== src/Subscription/Client/Reached.antt =====
-- A client under any sequence of callbacks.
use offckb.Base.{
  ℕ, suc, ◌≤◌, ◌<◌, ◌≡◌, ◌≢◌, ◌⊎◌, inl, inr, refl, ap, sym, ◌∙◌, true, false, ◌||◌, Option, none,
  some, List, ltb, if-both, if-cases, arith,
}
use mathlib.Core.Bool.{true≢false}
use offckb.Subscription.{Platform}
use offckb.Subscription.Addresses.{Endpoint}
use offckb.Subscription.Client.{
  dialling, connected, failed, gone, Client, fail, connect, on_connect, on_data, on_error, on_close,
  close, subscribe,
}

-- One callback, when the socket and the timer allow it.
pub data Step (p : Platform) (max : ℕ) : Client → Client → Type 0 where
  connects : (s : Client) → s.connection ≡ dialling → Step p max s (on_connect s)
  receives :
      (s : Client) (chunk : List ℕ) → s.connection ≡ connected → Step p max s (on_data p chunk s)
  refuses : (s : Client) → s.connection ≡ dialling → Step p max s (on_error max s)
  breaks : (s : Client) → s.connection ≡ connected → Step p max s (on_error max s)
  drops : (s : Client) → s.connection ≢ dialling → Step p max s (on_close s)
  fires : (s : Client) → s.retry_timer ≡ true → Step p max s (connect s)
  closes : (s : Client) → Step p max s (close s)

pub data Reached (p : Platform) (max : ℕ) (endpoint : Option Endpoint) : Client → Type 0 where
  starts : Reached p max endpoint (subscribe endpoint)
  steps : {s t : Client} → Reached p max endpoint s → Step p max s t → Reached p max endpoint t

-- The calls of `onError` so far, and what they tell.
abbrev pub Reports : ℕ → Client → Type 0
Reports max s =
    ((s.failed_reported ≡ false) × (s.errors ≡ 0))
    ⊎ ((s.errors ≡ 1)
        × (s.failed_reported ≡ true)
        × (s.ever_connected ≡ false)
        × (s.connection ≢ dialling)
        × (s.connection ≢ connected)
        × (s.retry_timer ≡ false)
        × ((s.attempts ≡ 0) ⊎ (max ≤ s.attempts)))

-- A retry is pending only below the limit and without a live connection, and the limit is not passed
-- but by the first dial.
abbrev pub IsLimited : ℕ → Client → Type 0
IsLimited max s =
    ((s.retry_timer ≡ false)
      ⊎ ((s.attempts < max) × (s.connection ≢ dialling) × (s.connection ≢ connected)))
    × ((s.attempts ≤ max) ⊎ (s.attempts ≤ 1))

abbrev pub IsSound : ℕ → Client → Type 0
IsSound max s = IsLimited max s × Reports max s

Reports-dialling :
    (max : ℕ) (s : Client)
    → Reports max s
    → (s.connection ≡ dialling) ⊎ (s.connection ≡ connected)
    → (s.failed_reported ≡ false) × (s.errors ≡ 0)
Reports-dialling max s (inl quiet) live = quiet
Reports-dialling max s (inr (e, r, never, not_dialling, not_connected, timer, tried)) (inl d) =
    absurd (not_dialling d)
Reports-dialling max s (inr (e, r, never, not_dialling, not_connected, timer, tried)) (inr c) =
    absurd (not_connected c)

no_timer :
    (max : ℕ) (s : Client)
    → IsLimited max s
    → (s.connection ≡ dialling) ⊎ (s.connection ≡ connected)
    → s.retry_timer ≡ false
no_timer max s (inl off, within) live = off
no_timer max s (inr (lt, not_dialling, not_connected), within) (inl d) = absurd (not_dialling d)
no_timer max s (inr (lt, not_dialling, not_connected), within) (inr c) = absurd (not_connected c)

fail-IsSound :
    (max : ℕ) (s : Client)
    → (s.attempts ≤ max) ⊎ (s.attempts ≤ 1)
    → s.retry_timer ≡ false
    → s.connection ≢ dialling
    → s.connection ≢ connected
    → s.ever_connected ≡ false
    → (s.failed_reported ≡ false) × (s.errors ≡ 0)
    → (s.attempts ≡ 0) ⊎ (max ≤ s.attempts)
    → IsSound max (fail s)
unfolding fail
fail-IsSound max s within timer d c never (unreported, none_yet) tried =
    if-both (IsSound max) (s.failed_reported || s.closed) _ _
      ((inl timer, within), inl (unreported, none_yet))
      ((inl timer, within), inr (ap suc none_yet, refl, never, d, c, timer, tried))

on_error-IsSound :
    (max : ℕ) (s : Client)
    → (s.connection ≡ dialling) ⊎ (s.connection ≡ connected)
    → IsSound max s
    → IsSound max (on_error max s)
unfolding on_error
on_error-IsSound max s live (limited, reports) =
    let quiet = Reports-dialling max s reports live in
    let off = no_timer max s limited live in
    if-cases (IsSound max) (s.closed || s.ever_connected) _ _
      (λ over. ((inl off, limited.1), inl quiet))
      (λ waiting.
        if-cases (IsSound max) (ltb s.attempts max) _ _
          (λ below. ((inr (ground (arith, below), (λ e. cc), (λ e. cc)), limited.1), inl quiet))
          (λ spent.
            fail-IsSound max (record s { connection = failed }) limited.1 off (λ e. cc) (λ e. cc)
              (ground (arith, waiting)) quiet (inr (ground (arith, spent)))))

connect-IsSound :
    (max : ℕ) (s : Client) → IsSound max s → s.retry_timer ≡ true → IsSound max (connect s)
unfolding connect
connect-IsSound max s (limited, reports) pending =
    if-both (IsSound max) s.closed _ _ (limited, reports)
      ((inl refl, inl (below limited.0)), inl (quiet reports))
  where
    below :
        (s.retry_timer ≡ false)
          ⊎ ((s.attempts < max) × (s.connection ≢ dialling) × (s.connection ≢ connected))
        → suc s.attempts ≤ max
    below (inl off) = absurd (true≢false (sym pending ∙ off))
    below (inr (lt, d, c)) = omega (arith, lt)

    quiet : Reports max s → (s.failed_reported ≡ false) × (s.errors ≡ 0)
    quiet (inl q) = q
    quiet (inr (e, r, never, d, c, off, tried)) = absurd (true≢false (sym pending ∙ off))

Step-IsSound :
    (p : Platform) (max : ℕ) {s t : Client} → Step p max s t → IsSound max s → IsSound max t
unfolding on_connect on_data on_close close
Step-IsSound p max (connects s d) (limited, reports) = (
  (inl (no_timer max s limited (inl d)), limited.1),
  inl (Reports-dialling max s reports (inl d)),
)
Step-IsSound p max (receives s chunk c) sound = sound
Step-IsSound p max (refuses s d) sound = on_error-IsSound max s (inl d) sound
Step-IsSound p max (breaks s c) sound = on_error-IsSound max s (inr c) sound
Step-IsSound p max (drops s d) (limited, reports) = (
  (without_connection limited.0, limited.1),
  elim reports [
    | inl quiet ↦ inl quiet
    | inr (e, r, never, d', c, off, tried) ↦ inr (e, r, never, (λ x. cc), (λ x. cc), off, tried)
  ],
)
  where
    without_connection :
        (s.retry_timer ≡ false)
          ⊎ ((s.attempts < max) × (s.connection ≢ dialling) × (s.connection ≢ connected))
        → (s.retry_timer ≡ false) ⊎ ((s.attempts < max) × (gone ≢ dialling) × (gone ≢ connected))
    without_connection (inl off) = inl off
    without_connection (inr (lt, d', c)) = inr (lt, (λ x. cc), (λ x. cc))
Step-IsSound p max (fires s pending) sound = connect-IsSound max s sound pending
Step-IsSound p max (closes s) (limited, reports) = (
  (inl refl, limited.1),
  elim reports [
    | inl quiet ↦ inl quiet
    | inr (e, r, never, d, c, off, tried) ↦ inr (e, r, never, (λ x. cc), (λ x. cc), refl, tried)
  ],
)

subscribe-IsSound : (max : ℕ) (endpoint : Option Endpoint) → IsSound max (subscribe endpoint)
unfolding subscribe fail connect
subscribe-IsSound max none =
    ((inl refl, inl (omega arith)), inr (refl, refl, refl, (λ x. cc), (λ x. cc), refl, inl refl))
subscribe-IsSound max (some endpoint) = ((inl refl, inr (omega arith)), inl (refl, refl))

-- Under any sequence of callbacks, `onError` is called at most once. It was called only if no
-- connection was ever open and either the address is invalid or all attempts are spent, and then
-- no retry and no connection is left. No more than the attempts allowed are made, or one.
pub Reached-IsSound :
    (p : Platform) (max : ℕ) (endpoint : Option Endpoint) (s : Client)
    → Reached p max endpoint s
    → IsSound max s
Reached-IsSound p max endpoint _ starts = subscribe-IsSound max endpoint
Reached-IsSound p max endpoint _ (steps {s} {t} r step) =
    Step-IsSound p max step (Reached-IsSound p max endpoint s r)
