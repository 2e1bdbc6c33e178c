-- ===== src/Producer/Flushing/Tests.antt =====
-- A flush that waits for a batch in flight.
use opendata_go.Base.{◌⊎◌, inl, ◌≢◌, none, some, List, [], ◌∷◌, ◌≡◌, refl}
use opendata_go.Bytes.{pos}
use opendata_go.Budget.{Budget, new_budget, release, wait_drained}
use opendata_go.Producer.Flushing.{
  FlushEvent, message_taken, answered, changed, context_over, Acknowledged, Waited, flush,
  flush_sent, drain_signals, flush_lem, wait_loop,
}

-- One batch of ten bytes in flight.
abbrev busy : Budget
busy = record (new_budget (pos 100) (pos 4)) { bytes_used = 10; batches_used = 1 }

-- Its release, and much later the end of the context.
abbrev events : List FlushEvent
events = message_taken ∷ answered none ∷ changed (release 10 1) ∷ context_over ∷ []

flush_example :
    (w : Waited) × (flush events busy ≡ some w)
    × ((w.error ≢ none) ⊎ Acknowledged events × (w.budget.batches_used ≡ 0))
flush_example = flush_lem events busy (inl tt)

abbrev flushed : Waited
flushed = record { budget = release 10 1 (wait_drained busy).0; error = none }

flush_runs : flush events busy ≡ some flushed
unfolding flush flush_sent drain_signals wait_loop wait_drained release
flush_runs = refl
