-- ===== src/Producer/Rotator.antt =====
-- buffer/producer.go: `rotator`, which turns messages into batches. Gauges and the timer's clock are
-- left out: a tick is an event.
pub mod Batches
pub mod Ordinals
use opendata_go.Base.{
  [], ◌∷◌, ◌++◌, shutdown, leb, some, ◌+◌, Error, if◌then◌else◌, none, ◌*◌, length, List, Option, ℕ,
}
use opendata_go.Bytes.{pos, Bytes, u64}
use opendata_go.Manifest.{QueueMetadata}
use opendata_go.Budget.{Budget, acquire_batch_slot, release, add_reservation}
use opendata_go.Producer.Accumulator.{
  AppendMessage, BatchAccumulator, new_accumulator, add, is_empty, drain_append_ch,
}
use opendata_go.Producer.Watchers.{Watchers, resolve_each, acknowledged}

pub data FlushReason : Type 0 where
  size : FlushReason
  time : FlushReason
  manual : FlushReason
  shutting_down : FlushReason

pub record FlushStats : Type 0 where
  pub inputs : ℕ
  pub entries : ℕ
  pub uncompressed_bytes : ℕ

-- `stats`, less the age.
abbrev pub stats : BatchAccumulator → FlushStats
stats b = record {
  inputs = length b.metadata;
  entries = length b.entries;
  uncompressed_bytes = b.size_bytes;
}

pub record PendingBatch : Type 0 where
  pub ordinal : ℕ
  pub entries : List Bytes
  pub metadata : List QueueMetadata
  pub watchers : List ℕ
  pub stats : FlushStats
  pub reason : FlushReason
  pub flush_ack : Option ℕ
  pub byte_cost : ℕ

-- What the rotator has and does: `sent` are the batches sent on `pendingCh`.
pub record Rotator : Type 0 where
  pub batch : BatchAccumulator
  pub ordinal : ℕ
  pub budget : Budget
  pub watchers : Watchers
  pub flush_acks : List (ℕ × Option Error)
  pub sent : List PendingBatch

-- `batchEntryLenSize` for each entry and `batchFooterSize`.
abbrev pub framing_extra : BatchAccumulator → ℕ
framing_extra b = 4 * length b.entries + 7

abbrev pub pending_of : FlushReason → Option ℕ → Rotator → PendingBatch
pending_of reason flush_ack st = record {
  ordinal = st.ordinal;
  entries = st.batch.entries;
  metadata = st.batch.metadata;
  watchers = st.batch.watchers;
  stats = stats st.batch;
  reason = reason;
  flush_ack = flush_ack;
  byte_cost = st.batch.byte_cost + framing_extra st.batch;
}

-- The budget once the batch's slot was taken in it, and the framing charged.
abbrev pub charged : BatchAccumulator → Budget → Budget
charged batch b = add_reservation (pos (framing_extra batch)) (acquire_batch_slot b).0

-- The `emit` closure. `slot` is the budget in which a slot was free in the end, or `none` when the
-- shutdown signal came first.
unfoldable pub emit : FlushReason → Option ℕ → Option Budget → Rotator → Rotator
emit reason flush_ack slot st =
    if is_empty st.batch
    then record st { flush_acks = acknowledged flush_ack none st.flush_acks }
    else elim slot [
      | none ↦ record st {
        batch = new_accumulator;
        budget = release st.batch.byte_cost 0 st.budget;
        watchers = resolve_each (some shutdown) st.batch.watchers st.watchers;
        flush_acks = acknowledged flush_ack (some shutdown) st.flush_acks;
      }
      | some b ↦ record st {
        batch = new_accumulator;
        ordinal = u64 (st.ordinal + 1);
        budget = charged st.batch b;
        sent = st.sent ++ (pending_of reason flush_ack st ∷ []);
      }
    ]

-- What the `select` of the main loop may find; a flush finds messages still in the channel.
pub data Event : Type 0 where
  append : AppendMessage → Event
  flush : ℕ → List AppendMessage → Event
  tick : Event
  closing : Event

unfoldable pub handle : ℕ → Event → Option Budget → Rotator → Rotator
handle flush_size (append msg) slot st =
    let st' = record st { batch = add msg st.batch } in
    let out = emit size none slot st' in if leb flush_size st'.batch.size_bytes then out else st'
handle flush_size (flush ack waiting) slot st =
    emit manual (some ack) slot (record st { batch = drain_append_ch waiting st.batch })
handle flush_size tick slot st = emit time none slot st
handle flush_size closing slot st = emit shutting_down none slot st

-- A run of the main loop, with what the budget was at each event.
unfoldable pub rotate : ℕ → List (Event × Option Budget) → Rotator → Rotator
unfolding handle
rotate flush_size [] st = st
rotate flush_size ((event, slot) ∷ events) st =
    rotate flush_size events (handle flush_size event slot st)
