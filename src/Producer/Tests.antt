-- ===== src/Producer/Tests.antt =====
-- Messages on their way through the stages.
use opendata_go.Base.{
  arith, transport, ltb, if◌then◌else◌, Error, storage, true, Option, some, ◌^◌, ◌+◌, refl, none,
  List, ◌*◌, ◌++◌, ◌∷◌, [], false, ℕ, ◌≡◌,
}
use opendata_go.Bytes.{pos}
use opendata_go.Budget.{Budget, new_budget}
use opendata_go.Committer.{ResolverItem, committed}
use opendata_go.Producer.Accumulator.{
  AppendMessage, new_accumulator, drain_append_ch, drain_append_ch_lem, Accumulated, all_entries,
  all_watchers,
}
use opendata_go.Producer.Encoder.{location-injective}
use opendata_go.Producer.Retry.{Attempt, backoff_for, backoff_for_lem, capped}
use opendata_go.Producer.Rotator.{Rotator, Event, append, flush, tick, closing, rotate}
use opendata_go.Producer.Rotator.Batches.{
  AllSlots, messages, passed_entries, passed_watchers, rotate_lem,
}
use opendata_go.Producer.Rotator.Ordinals.{InOrder, rotate-InOrder}
use opendata_go.Producer.Watchers.{Settled, new_watcher, watches, resolve_items, resolve_items_lem}

abbrev message : ℕ → AppendMessage
message w = record {
  entries = (1 ∷ 2 ∷ []) ∷ (3 ∷ []) ∷ [];
  metadata = 9 ∷ [];
  ingestion_time_ms = pos 5;
  watcher = w;
  byte_cost = 4;
}

drain_append_ch_example :
    Accumulated
      (message 0 ∷ message 1 ∷ [])
      new_accumulator
      (drain_append_ch (message 0 ∷ message 1 ∷ []) new_accumulator)
drain_append_ch_example = drain_append_ch_lem (message 0 ∷ message 1 ∷ []) new_accumulator

abbrev budget : Budget
budget = new_budget (pos 100) (pos 4)

abbrev starting : Rotator
starting = record {
  batch = new_accumulator;
  ordinal = 0;
  budget = budget;
  watchers = λ q. new_watcher;
  flush_acks = [];
  sent = [];
}

abbrev events : List (Event × Option Budget)
events =
    (append (message 0), some budget)
    ∷ (append (message 1), some budget)
    ∷ (flush 7 (message 2 ∷ []), some budget)
    ∷ (tick, some budget)
    ∷ (closing, some budget)
    ∷ []

events-AllSlots : AllSlots events
unfolding AllSlots
events-AllSlots =
    ((budget, refl), ((budget, refl), ((budget, refl), ((budget, refl), ((budget, refl), tt)))))

rotate_example :
    (passed_entries (rotate 6 events starting)
      ≡ passed_entries starting ++ all_entries (messages events))
    × (passed_watchers (rotate 6 events starting)
        ≡ passed_watchers starting ++ all_watchers (messages events))
rotate_example = rotate_lem 6 events starting events-AllSlots

rotate-InOrder_example : InOrder (rotate 6 events starting)
rotate-InOrder_example =
    rotate-InOrder 6 events starting (record { next_is = refl; sent_in_order = tt })

abbrev item : ℕ → Option Error → ResolverItem
item w e = record {
  completion = record {
    eb = record {
      ordinal = w;
      payload = [];
      metadata = [];
      watchers = w ∷ [];
      flush_ack = some w;
      location = [];
      byte_cost = 4;
    };
    put_error = none;
    encode_failed = false;
  };
  error = e;
  outcome = committed;
}

abbrev settling : Settled
settling = record { watchers = λ q. new_watcher; flush_acks = []; budget = budget }

not_first : watches 1 (0 ∷ []) ≡ false
unfolding watches
not_first = refl

second : watches 1 (1 ∷ []) ≡ true
unfolding watches
second = refl

resolve_items_example :
    (resolve_items (item 0 none ∷ item 1 (some storage) ∷ item 1 none ∷ []) settling).watchers 1
    ≡ record { result = some storage; done = true }
resolve_items_example =
    resolve_items_lem (item 0 none ∷ []) (item 1 none ∷ []) (item 1 (some storage)) settling 1
      (not_first, tt) second refl

-- A store whose first two puts fail.
abbrev flaky : ℕ → Attempt ℕ
flaky n = record { state = n + 1; conflicts = 0; error = if ltb n 2 then some transport else none }

backoff_for_example : backoff_for 3 100 ≡ capped (100 * 2 ^ 3)
backoff_for_example = backoff_for_lem 3 100

abbrev ordinal : ℕ
ordinal = 255

location-injective_example : ordinal ≡ ordinal
location-injective_example =
    location-injective (1 ∷ []) (2 ∷ []) ordinal ordinal (omega arith) (omega arith) refl

-- The budget is full; others release some of it, and then the rotator ends.
abbrev full_budget : Budget
full_budget = record budget { bytes_used = 100 }

abbrev release_some : Budget → Budget
release_some b = record b { bytes_used = 40 }

abbrev untouched : Budget → Budget
untouched b = b
