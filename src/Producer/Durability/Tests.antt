-- ===== src/Producer/Durability/Tests.antt =====
-- A caller waits for batch 0, whose entry goes to a manifest in memory.
use opendata_go.Base.{
  subst, sym, append-nil, arith, length, Option, none, some, false, List, [], ◌∷◌, ◌≡◌, ℕ, refl,
}
use mathlib.Core.List.{Mem}
use opendata_go.Budget.{new_budget}
use opendata_go.Committer.{
  UploadCompletion, ResolverItem, Drained, item_of, receive, drain, take_group, ready_at, remove,
  place, gathered, items_of, resolve_all, resolve_failed, cas_group, after_cas,
}
use opendata_go.Committer.Run.{Arrivals, manifest_committer, turns, closing}
use opendata_go.Bytes.{pos, Bytes, le_bytes, from_le, slice, read_le}
use opendata_go.Bytes.Decimal.{decimal, same}
use opendata_go.Manifest.{QueueEntry}
use opendata_go.Manifest.Encode.{
  append, to_bytes, manifest_from_bytes, empty_manifest, existing_entries_count, metadata_size,
  append_metadata, encode_queue_entry, append_footer, prefix_of,
}
use opendata_go.Manifest.Layout.{ranges_bytes, length-body_bytes}
use opendata_go.Store.Memory.{
  InMemory, new_in_memory, version_etag, get, put, put_if_match, matches,
}
use opendata_go.Store.Memory.Laws.{in_memory-CasLaws}
use opendata_go.Store.Memory.Answers.{in_memory-Reliable}
use opendata_go.Enqueuer.{
  ConflictCounter, entry_of, enqueue_batch, enqueue_loop, prepare, read_manifest, append_all,
  manifest_of, after_put,
}
use opendata_go.Enqueuer.Log.{IsItem, LogAt}
use opendata_go.Enqueuer.Keeps.{OthersAdd, FailSafe, Holds, Reliable-FailSafe}
use opendata_go.Producer.Retry.{with_retry, retry_loop}
use opendata_go.Producer.Appends.Enqueued.{enqueue_attempt, items_of_entries}
use opendata_go.Producer.Watchers.{
  Settled, new_watcher, resolve_items, resolve_item, resolve_each, resolve,
}
use opendata_go.Producer.Durability.{
  on_channel, await_durable, ResolvedBy, await_durable-IsDurable, committer_run,
}

abbrev batch_of : ℕ → UploadCompletion
batch_of n = record {
  eb = record {
    ordinal = n;
    payload = [];
    metadata = [];
    watchers = n ∷ [];
    flush_ack = none;
    location = n ∷ [];
    byte_cost = 10;
  };
  put_error = none;
  encode_failed = false;
}

abbrev path : Bytes
path = 109 ∷ []

abbrev alone : ℕ → InMemory → InMemory
alone k s = s

alone-OthersAdd : OthersAdd in_memory-CasLaws path alone
alone-OthersAdd k s es (next, log) = (
  [],
  (next, subst (λ l. LogAt (in_memory-CasLaws.view s path) l next) (sym (append-nil es)) log),
)

in_memory-FailSafe : FailSafe in_memory-CasLaws
in_memory-FailSafe = Reliable-FailSafe in_memory-CasLaws in_memory-Reliable

abbrev start : InMemory × ConflictCounter
start = (new_in_memory, record { write_count = 0; conflict_count = 0 })

nothing_yet : Holds in_memory-CasLaws path new_in_memory []
unfolding in_memory-CasLaws
nothing_yet = (0, (refl, refl))

no_ranges : length (ranges_bytes []) ≡ 0
unfolding ranges_bytes
no_ranges = refl

batch-IsItem : IsItem (item_of (batch_of 0))
batch-IsItem = record {
  sequence_fits = omega arith;
  location_fits = omega arith;
  count_fits = omega arith;
  body_fits = omega (arith, length-body_bytes (entry_of (item_of (batch_of 0))), no_ranges);
  ranges = tt;
}

abbrev arrivals : List Arrivals
arrivals = record { first = batch_of 0; more = [] } ∷ []

abbrev settled : Settled
settled = record {
  watchers = λ q. new_watcher;
  flush_acks = [];
  budget = new_budget (pos 100) (pos 4);
}

abbrev end_of : Option (Drained (InMemory × ConflictCounter)) → Drained (InMemory × ConflictCounter)
end_of (some d) = d
end_of none = record {
  committer = record { next = 0; ready = []; halted = false };
  state = start;
  resolved = [];
}

abbrev run : Option (Drained (InMemory × ConflictCounter))
run =
    committer_run in_memory-CasLaws path alone alone-OthersAdd in_memory-FailSafe 1 (λ k. false) 3 2
      (omega arith) arrivals false start

abbrev after_run : Drained (InMemory × ConflictCounter)
after_run = end_of run

ran : run ≡ some after_run
unfolding manifest_committer turns closing receive drain take_group ready_at remove place gathered
    items_of resolve_all resolve_failed cas_group after_cas with_retry retry_loop enqueue_attempt
    enqueue_batch enqueue_loop prepare read_manifest append_all manifest_of after_put append
    to_bytes manifest_from_bytes empty_manifest get put put_if_match matches version_etag decimal
    same existing_entries_count metadata_size append_metadata encode_queue_entry append_footer
    prefix_of le_bytes from_le slice read_le
ran = refl

success :
    await_durable on_channel ((resolve_items after_run.resolved settled).watchers 0) ≡ some none
unfolding await_durable resolve_items resolve_item resolve_each resolve manifest_committer turns
    closing receive drain take_group ready_at remove place gathered items_of resolve_all
    resolve_failed cas_group after_cas with_retry retry_loop enqueue_attempt enqueue_batch
    enqueue_loop prepare read_manifest append_all manifest_of after_put append to_bytes
    manifest_from_bytes empty_manifest get put put_if_match matches version_etag decimal same
    existing_entries_count metadata_size append_metadata encode_queue_entry append_footer prefix_of
    le_bytes from_le slice read_le
success = refl

await_durable-IsDurable_example :
    (r : ResolverItem) × ResolvedBy 0 after_run.resolved r
    × (r.completion.put_error ≡ none)
    × (es' : List QueueEntry) × Holds in_memory-CasLaws path after_run.state.0 es'
    × Mem (item_of r.completion) (items_of_entries es')
await_durable-IsDurable_example =
    await_durable-IsDurable in_memory-CasLaws path alone alone-OthersAdd in_memory-FailSafe 1
      (λ k. false) 3 2 (omega arith) arrivals false start [] after_run settled 0 on_channel
      nothing_yet ((batch-IsItem, tt), tt) ran refl success
