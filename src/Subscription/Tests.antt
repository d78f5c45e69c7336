-- ===== src/Subscription/Tests.antt =====
-- Small subscriptions.
use offckb.Base.{ℕ, ◌<◌, ◌≡◌, refl, true, none, some, List, [], ◌∷◌}
use offckb.Base.Text.{text}
use offckb.Logs.{split_lines}
use offckb.Subscription.{Platform, entries_of}
use offckb.Subscription.Addresses.{Endpoint}
use offckb.Subscription.Client.{dialling, subscribe, on_error, connect, new_client}
use offckb.Subscription.Client.Reached.{starts, steps, refuses, fires, IsSound, Reached-IsSound}
use offckb.Subscription.Client.Refused.{refused, Retries, GivesUp, refused-reported}
use offckb.Subscription.Client.Chunks.{receive_all, decoded, all_bytes, receive_all-entries}

abbrev small_endpoint : Endpoint
small_endpoint = record { host = text "127.0.0.1"; port = 18_114 }

abbrev small_platform : Platform
small_platform = record { parse = λ s. none; to_text = λ bytes. bytes }

-- The first dial is refused, and the timer fires.
dials_first : (subscribe (some small_endpoint)).connection ≡ dialling
unfolding subscribe connect
dials_first = refl

retries_first : (on_error 2 (subscribe (some small_endpoint))).retry_timer ≡ true
unfolding subscribe connect on_error
retries_first = refl

Reached-IsSound_example : IsSound 2 (connect (on_error 2 (subscribe (some small_endpoint))))
Reached-IsSound_example =
    Reached-IsSound small_platform 2 (some small_endpoint)
      (connect (on_error 2 (subscribe (some small_endpoint))))
      (steps (steps starts (refuses (subscribe (some small_endpoint)) dials_first))
        (fires (on_error 2 (subscribe (some small_endpoint))) retries_first))

refused-reported_example :
    ((k : ℕ) → k < 9 → Retries (refused 10 k (subscribe (some small_endpoint))))
    × GivesUp 10 (refused 10 9 (subscribe (some small_endpoint)))
refused-reported_example = refused-reported 9 small_endpoint

nothing_kept : split_lines [] ≡ ([], [])
unfolding split_lines
nothing_kept = refl

abbrev two_chunks : List (List ℕ)
two_chunks = (97 ∷ []) ∷ (98 ∷ 10 ∷ []) ∷ []

splits_nothing : decoded small_platform two_chunks ≡ small_platform.to_text (all_bytes two_chunks)
unfolding decoded
splits_nothing = refl

receive_all-entries_example :
    (receive_all small_platform two_chunks new_client).entries
    ≡ entries_of small_platform (split_lines (small_platform.to_text (all_bytes two_chunks))).0
receive_all-entries_example =
    receive_all-entries small_platform two_chunks new_client nothing_kept splits_nothing
