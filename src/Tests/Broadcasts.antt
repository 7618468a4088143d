-- ===== src/Tests/Broadcasts.antt =====
-- Runs of /broadcast.
use yes.Prelude.{◌+◌, ◌≡◌, refl, false, List, [], ◌∷◌, none, ℤ, pos, arith, inl, length}
use yes.Handlers.Broadcast.{
  Event, feed, receive, look, forward, wake, cancel, taken, flood_wait, run, broadcast_started,
  flags, no_flags, read_fields,
}
use yes.Handlers.Broadcasting.{occurrences, IsOver}
use yes.Handlers.BroadcastOptions.{is_parsed, value_apart_refused}
use yes.Handlers.BroadcastProgress.{broadcast_ends}
use yes.Handlers.BroadcastResult.{broadcast_over}

abbrev two_targets : List ℤ
two_targets = pos 1 ∷ pos 2 ∷ []

-- Two workers take one target each; the broadcast is cancelled before the second one looks.
abbrev cancelled_run : List Event
cancelled_run =
    feed
    ∷ feed
    ∷ receive 3
    ∷ receive 5
    ∷ look 3
    ∷ forward 3 flood_wait
    ∷ cancel
    ∷ look 5
    ∷ forward 3 taken
    ∷ wake 3
    ∷ []

broadcast_over_example :
    ((id : ℤ)
      → occurrences id (run cancelled_run (broadcast_started two_targets)).delivered
          + occurrences id (run cancelled_run (broadcast_started two_targets)).missed
        ≡ occurrences id two_targets)
    × ((run cancelled_run (broadcast_started two_targets)).success
        ≡ length (run cancelled_run (broadcast_started two_targets)).delivered)
    × ((run cancelled_run (broadcast_started two_targets)).failed
        ≡ length (run cancelled_run (broadcast_started two_targets)).missed)
    × ((run cancelled_run (broadcast_started two_targets)).success
          + (run cancelled_run (broadcast_started two_targets)).failed
        ≡ length two_targets)
unfolding IsOver run broadcast_started
broadcast_over_example =
    broadcast_over two_targets cancelled_run (omega arith) (refl, refl, ground arith)

broadcast_ends_example :
    (later : List Event) × IsOver
      (run later (run (feed ∷ receive 3 ∷ []) (broadcast_started two_targets)))
broadcast_ends_example = broadcast_ends two_targets (feed ∷ receive 3 ∷ [])

value_apart_refused_example :
    is_parsed (read_fields (λ text. none) ("-copy" ∷ "-limit" ∷ "100" ∷ []) (flags no_flags))
    ≡ false
value_apart_refused_example =
    value_apart_refused (λ text. none) ("-copy" ∷ []) ("100" ∷ []) "-limit" (flags no_flags) refl
      (inl refl)
