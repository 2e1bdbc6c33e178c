-- ===== src/Producer/Accumulator.antt =====
-- buffer/producer.go: `batchAccumulator`, and how `AppendContext` builds a message for it. The clock
-- reading `startedAt` is left out.
use opendata_go.Base.{
  length-append, append_assoc, ap, ◌∙◌, ◌==◌, refl, append-nil, true, ◌∷◌, length, false, ◌+◌, sym,
  arith, List, ◌≡◌, Bool, [], ◌++◌, ℕ,
}
use opendata_go.Bytes.{ℤ, Bytes, u32}
use opendata_go.Manifest.{QueueMetadata}

-- A watcher is named by a number.
pub record AppendMessage : Type 0 where
  pub entries : List Bytes
  pub metadata : Bytes
  pub ingestion_time_ms : ℤ
  pub watcher : ℕ
  pub byte_cost : ℕ

pub record BatchAccumulator : Type 0 where
  pub entries : List Bytes
  pub metadata : List QueueMetadata
  pub watchers : List ℕ
  pub size_bytes : ℕ
  pub byte_cost : ℕ
  pub started : Bool

abbrev pub new_accumulator : BatchAccumulator
new_accumulator = record {
  entries = [];
  metadata = [];
  watchers = [];
  size_bytes = 0;
  byte_cost = 0;
  started = false;
}

-- The loop over the lengths of the entries.
abbrev pub add_lengths : ℕ → List Bytes → ℕ
add_lengths n [] = n
add_lengths n (e ∷ es) = add_lengths (n + length e) es

unfoldable pub add : AppendMessage → BatchAccumulator → BatchAccumulator
add msg b = record {
  entries = b.entries ++ msg.entries;
  metadata =
      b.metadata
      ++ (record {
        start_index = u32 (length b.entries);
        ingestion_time_ms = msg.ingestion_time_ms;
        payload = msg.metadata;
      }
          ∷ []);
  watchers = b.watchers ++ (msg.watcher ∷ []);
  size_bytes = add_lengths b.size_bytes msg.entries + length msg.metadata;
  byte_cost = b.byte_cost + msg.byte_cost;
  started = true;
}

abbrev pub is_empty : BatchAccumulator → Bool
is_empty b = length b.entries == 0

-- `drainAppendChInto`: the messages that wait in the channel.
unfoldable pub drain_append_ch : List AppendMessage → BatchAccumulator → BatchAccumulator
drain_append_ch [] b = b
drain_append_ch (msg ∷ msgs) b = drain_append_ch msgs (add msg b)

-- What a batch of messages is.
unfoldable pub all_entries : List AppendMessage → List Bytes
all_entries [] = []
all_entries (msg ∷ msgs) = msg.entries ++ all_entries msgs

unfoldable pub all_watchers : List AppendMessage → List ℕ
all_watchers [] = []
all_watchers (msg ∷ msgs) = msg.watcher ∷ all_watchers msgs

unfoldable pub total_cost : List AppendMessage → ℕ
total_cost [] = 0
total_cost (msg ∷ msgs) = msg.byte_cost + total_cost msgs

abbrev pub total_length : List Bytes → ℕ
total_length [] = 0
total_length (e ∷ es) = length e + total_length es

unfoldable pub total_size : List AppendMessage → ℕ
total_size [] = 0
total_size (msg ∷ msgs) = total_length msg.entries + length msg.metadata + total_size msgs

-- The metadata of messages whose entries start at `n`: each one's range begins where the entries of
-- those before it end.
unfoldable pub ranges_from : ℕ → List AppendMessage → List QueueMetadata
ranges_from n [] = []
ranges_from n (msg ∷ msgs) =
    record {
      start_index = u32 n;
      ingestion_time_ms = msg.ingestion_time_ms;
      payload = msg.metadata;
    }
    ∷ ranges_from (n + length msg.entries) msgs

pub all_entries-append :
    (ms ns : List AppendMessage) → all_entries (ms ++ ns) ≡ all_entries ms ++ all_entries ns
unfolding all_entries
all_entries-append [] ns = refl
all_entries-append (m ∷ ms) ns =
    ap (λ l. m.entries ++ l) (all_entries-append ms ns)
    ∙ sym (append_assoc m.entries (all_entries ms) (all_entries ns))

pub all_watchers-append :
    (ms ns : List AppendMessage) → all_watchers (ms ++ ns) ≡ all_watchers ms ++ all_watchers ns
unfolding all_watchers
all_watchers-append [] ns = refl
all_watchers-append (m ∷ ms) ns = ap (λ l. m.watcher ∷ l) (all_watchers-append ms ns)

add_lengths_lem : (n : ℕ) (es : List Bytes) → add_lengths n es ≡ n + total_length es
add_lengths_lem n [] = omega arith
add_lengths_lem n (e ∷ es) = omega (arith, add_lengths_lem (n + length e) es)

pub record Accumulated (msgs : List AppendMessage) (b b' : BatchAccumulator) : Type 0 where
  pub entries_are : b'.entries ≡ b.entries ++ all_entries msgs
  pub metadata_are : b'.metadata ≡ b.metadata ++ ranges_from (length b.entries) msgs
  pub watchers_are : b'.watchers ≡ b.watchers ++ all_watchers msgs
  pub size_is : b'.size_bytes ≡ b.size_bytes + total_size msgs
  pub cost_is : b'.byte_cost ≡ b.byte_cost + total_cost msgs

abbrev range_of : ℕ → AppendMessage → QueueMetadata
range_of n msg = record {
  start_index = u32 n;
  ingestion_time_ms = msg.ingestion_time_ms;
  payload = msg.metadata;
}

-- What one message adds.
record Added (msg : AppendMessage) (b b' : BatchAccumulator) : Type 0 where
  entries_are : b'.entries ≡ b.entries ++ msg.entries
  metadata_are : b'.metadata ≡ b.metadata ++ (range_of (length b.entries) msg ∷ [])
  watchers_are : b'.watchers ≡ b.watchers ++ (msg.watcher ∷ [])
  size_is : b'.size_bytes ≡ b.size_bytes + (total_length msg.entries + length msg.metadata)
  cost_is : b'.byte_cost ≡ b.byte_cost + msg.byte_cost

add_lem : (msg : AppendMessage) (b : BatchAccumulator) → Added msg b (add msg b)
unfolding add
add_lem msg b = record {
  entries_are = refl;
  metadata_are = refl;
  watchers_are = refl;
  size_is = omega (arith, add_lengths_lem b.size_bytes msg.entries);
  cost_is = refl;
}

-- After any messages the accumulator holds their entries in order, for each message a range that
-- begins where the entries of the ones before it end and carries its time and payload, the watchers
-- in order, and the sums of the sizes and of the reservations.
pub drain_append_ch_lem :
    (msgs : List AppendMessage) (b : BatchAccumulator) → Accumulated msgs b (drain_append_ch msgs b)
unfolding drain_append_ch all_entries all_watchers total_cost total_size ranges_from
drain_append_ch_lem [] b = record {
  entries_are = sym (append-nil _);
  metadata_are = sym (append-nil _);
  watchers_are = sym (append-nil _);
  size_is = omega arith;
  cost_is = omega arith;
}
drain_append_ch_lem (msg ∷ msgs) b =
    let r = drain_append_ch_lem msgs (add msg b) in
    let a = add_lem msg b in
    record {
      entries_are =
          r.entries_are
          ∙ ap (λ x. x ++ all_entries msgs) a.entries_are
          ∙ append_assoc b.entries msg.entries (all_entries msgs);
      metadata_are =
          r.metadata_are
          ∙ ap (λ x. x ++ ranges_from (length (add msg b).entries) msgs) a.metadata_are
          ∙ append_assoc b.metadata _ (ranges_from (length (add msg b).entries) msgs)
          ∙ ap (λ n. b.metadata ++ (range_of (length b.entries) msg ∷ ranges_from n msgs))
              (ap length a.entries_are ∙ length-append b.entries msg.entries);
      watchers_are =
          r.watchers_are
          ∙ ap (λ x. x ++ all_watchers msgs) a.watchers_are
          ∙ append_assoc b.watchers (msg.watcher ∷ []) (all_watchers msgs);
      size_is = omega (arith, r.size_is, a.size_is);
      cost_is = omega (arith, r.cost_is, a.cost_is);
    }
