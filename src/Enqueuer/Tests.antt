-- ===== src/Enqueuer/Tests.antt =====
-- The enqueuer on the in-memory store: tests, and its theorems at concrete inputs.
use opendata_go.Enqueuer.Counts.{Counted, Rounds, enqueue_batch-Counted}
use opendata_go.Base.{
  ◌≤◌, subst, sym, ◌≡◌, ◌∷◌, [], ◌++◌, none, some, ok, suc, zero, length, refl, arith, ℕ, Option,
  All,
}
use opendata_go.Bytes.{Bytes, pos, le_bytes, from_le, slice, read_le, u64_of_int}
use opendata_go.Bytes.Decimal.{same_refl, decimal, same}
use opendata_go.Manifest.{QueueEntry}
use opendata_go.Manifest.Encode.{
  append, to_bytes, manifest_from_bytes, empty_manifest, existing_entries_count, metadata_size,
  append_metadata, encode_queue_entry, append_footer, prefix_of,
}
use opendata_go.Manifest.Layout.{
  entry_bytes, body_bytes, ranges_bytes, range_bytes, length-body_bytes, entries_bytes,
  footer_bytes, IsEntry,
}
use opendata_go.Store.{Version}
use opendata_go.Store.Memory.{
  MemObject, InMemory, new_in_memory, in_memory, version_etag, get, put, put_if_match, matches,
  written,
}
use opendata_go.Store.Memory.Laws.{in_memory-CasLaws, Writes, idle, then_put, view}
use opendata_go.Store.Memory.Answers.{in_memory-Reliable}
use opendata_go.Enqueuer.{
  EnqueueItem, entry_of, append_all, manifest_of, after_put, EnqueueResult, ConflictCounter,
  enqueue_loop, enqueue_batch, prepare, read_manifest,
}
use opendata_go.Enqueuer.Log.{LogAt, IsItem}
use opendata_go.Enqueuer.Read.{Valid}
use opendata_go.Enqueuer.Commit.{Neighbours, Committed, enqueue_batch_commits}
use opendata_go.Enqueuer.Terminates.{QuietFrom, enqueue_batch_returns, enqueue_batch_succeeds}

abbrev path : Bytes
path = 109 ∷ []

abbrev item : EnqueueItem
item = record {
  location = 97 ∷ 98 ∷ [];
  metadata = record { start_index = 0; ingestion_time_ms = pos 7; payload = 1 ∷ [] } ∷ [];
}

-- The entry of another client.
abbrev other : QueueEntry
other = record { sequence = 0; location = 99 ∷ []; metadata = [] }

abbrev other_bytes : Bytes
other_bytes = entries_bytes (other ∷ []) ++ footer_bytes 1 1 5

-- In round 0 the other client writes a manifest.
abbrev rival : ℕ → InMemory → InMemory
rival zero s = (put path other_bytes s).0
rival (suc k) s = s

abbrev alone : ℕ → InMemory → InMemory
alone k s = s

abbrev zero_counter : ConflictCounter
zero_counter = record { write_count = 0; conflict_count = 0 }

item_ranges : length (ranges_bytes (entry_of item).metadata) ≡ 17
unfolding ranges_bytes range_bytes le_bytes u64_of_int
item_ranges = refl

other_ranges : length (ranges_bytes other.metadata) ≡ 0
unfolding ranges_bytes
other_ranges = refl

item-IsItem : All IsItem (item ∷ [])
item-IsItem = (
  record {
    sequence_fits = omega arith;
    location_fits = omega arith;
    count_fits = omega arith;
    body_fits = omega (arith, length-body_bytes (entry_of item), item_ranges);
    ranges = (
      record { start_fits = omega arith; time_fits = omega arith; payload_fits = omega arith },
      tt,
    );
  },
  tt,
)

other-IsEntry : IsEntry other
other-IsEntry = record {
  sequence_fits = omega arith;
  location_fits = omega arith;
  count_fits = omega arith;
  body_fits = omega (arith, length-body_bytes other, other_ranges);
  ranges = tt;
}

other_log : (w : Version) → Valid (some (record { bytes = other_bytes; version = w }))
other_log w = (other ∷ [], 1, (5, omega arith, omega arith, omega arith, (other-IsEntry, tt), refl))

written-bytes : (b : Bytes) (x : Option MemObject) → (written b x).bytes ≡ b
written-bytes b none = refl
written-bytes b (some o) = refl

put_view :
    (p b : Bytes) (s : InMemory)
    → view (put p b s).0 p
      ≡ some (record { bytes = b; version = version_etag (written b (s p)).version })
unfolding put
put_view p b s = rw (same_refl p, written-bytes b (s p))

alone-Neighbours : Neighbours in_memory-CasLaws path alone
unfolding in_memory-CasLaws
alone-Neighbours = record { write = λ k s. idle; keep = λ k s v. v }

rival-Neighbours : Neighbours in_memory-CasLaws path rival
unfolding in_memory-CasLaws put version_etag
rival-Neighbours = record { write = write; keep = keep }
  where
    write : (k : ℕ) (s : InMemory) → Writes s (rival k s)
    write zero s = then_put path other_bytes idle
    write (suc k) s = idle

    keep : (k : ℕ) (s : InMemory) → Valid (view s path) → Valid (view (rival k s) path)
    keep zero s v =
        subst Valid (sym (put_view path other_bytes s))
          (other_log (version_etag (written other_bytes (s path)).version))
    keep (suc k) s v = v

abbrev run : Option (EnqueueResult InMemory)
run = enqueue_batch in_memory path rival 2 (item ∷ []) zero_counter new_in_memory

abbrev result : EnqueueResult InMemory
result = elim run [
  | none ↦ record { state = new_in_memory; counter = zero_counter; conflicts = 0; outcome = ok tt }
  | some r ↦ r
]

run_lem : run ≡ some result
unfolding enqueue_batch enqueue_loop prepare read_manifest append_all manifest_of after_put append
    to_bytes manifest_from_bytes empty_manifest get put put_if_match matches version_etag decimal
    same existing_entries_count metadata_size append_metadata encode_queue_entry append_footer
    prefix_of le_bytes from_le slice read_le entries_bytes footer_bytes entry_bytes body_bytes
    ranges_bytes
run_lem = refl

-- The rival's write makes the first round fail; the second one writes.
run_succeeds :
    (result.outcome ≡ ok tt)
    × (result.conflicts ≡ 1)
    × (result.counter.write_count ≡ 2)
    × (result.counter.conflict_count ≡ 1)
unfolding enqueue_batch enqueue_loop prepare read_manifest append_all manifest_of after_put append
    to_bytes manifest_from_bytes empty_manifest get put put_if_match matches version_etag decimal
    same existing_entries_count metadata_size append_metadata encode_queue_entry append_footer
    prefix_of le_bytes from_le slice read_le entries_bytes footer_bytes entry_bytes body_bytes
    ranges_bytes
run_succeeds = (refl, refl, refl, refl)

empty_here : LogAt (in_memory-CasLaws.view new_in_memory path) [] 0
unfolding in_memory-CasLaws
empty_here = (refl, refl)

nothing_yet : Valid (in_memory-CasLaws.view new_in_memory path)
nothing_yet = ([], 0, empty_here)

enqueue_batch_commits_example : Committed in_memory-CasLaws path rival (item ∷ []) result
enqueue_batch_commits_example =
    enqueue_batch_commits in_memory-CasLaws path rival rival-Neighbours 2 (item ∷ []) zero_counter
      new_in_memory run_lem run_succeeds.0 (omega arith) nothing_yet item-IsItem (omega arith)

rival-QuietFrom : QuietFrom in_memory-CasLaws path rival 1
unfolding in_memory-CasLaws
rival-QuietFrom zero h s = absurd (omega (arith, h))
rival-QuietFrom (suc k) h s = refl

alone-QuietFrom : QuietFrom in_memory-CasLaws path alone 0
alone-QuietFrom k h s = refl

enqueue_batch_returns_example :
    (r : EnqueueResult InMemory) × (enqueue_batch in_memory path rival 2
        (item ∷ [])
        zero_counter
        new_in_memory
      ≡ some r)
    × (r.conflicts ≤ 1)
enqueue_batch_returns_example =
    enqueue_batch_returns in_memory-CasLaws path rival rival-Neighbours 1 2 (item ∷ []) zero_counter
      new_in_memory rival-QuietFrom (omega arith) (omega arith) nothing_yet item-IsItem
      (omega arith)

enqueue_batch_succeeds_example :
    (r : EnqueueResult InMemory) × (enqueue_batch in_memory path alone 1
        (item ∷ [])
        zero_counter
        new_in_memory
      ≡ some r)
    × (r.outcome ≡ ok tt)
    × (r.conflicts ≡ 0)
    × Committed in_memory-CasLaws path alone (item ∷ []) r
enqueue_batch_succeeds_example =
    enqueue_batch_succeeds in_memory-CasLaws path alone alone-Neighbours 1 (item ∷ []) zero_counter
      new_in_memory [] 0 in_memory-Reliable alone-QuietFrom (omega arith) (omega arith) empty_here
      item-IsItem (omega arith)

enqueue_batch-Counted_example :
    (last_write : ℕ) × Counted zero_counter result.conflicts last_write result.counter
    × Rounds in_memory path rival (item ∷ []) last_write result 0 new_in_memory
enqueue_batch-Counted_example =
    enqueue_batch-Counted in_memory path rival 2 (item ∷ []) zero_counter new_in_memory result
      (omega arith) (omega arith, omega arith) run_lem
