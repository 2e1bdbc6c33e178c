-- ===== src/Producer/Appends/Tests.antt =====
-- A manifest whose first write is stored and reports an error all the same.
use opendata_go.Base.{
  All, subst, sym, append-nil, arith, none, some, storage, false, List, [], ◌∷◌, ◌++◌, ◌≡◌, ◌==◌,
  length, ℕ, refl, if◌then◌else◌, Error, Option,
}
use opendata_go.Enqueuer.{EnqueueItem, ConflictCounter, entry_of}
use opendata_go.Committer.Run.Reported.{Logs}
use opendata_go.Producer.Retry.{Attempt, with_retry, retry_loop}
use opendata_go.Producer.Appends.{retried}
use opendata_go.Bytes.{Bytes}
use opendata_go.Store.Memory.{InMemory, in_memory, new_in_memory}
use opendata_go.Store.Memory.Laws.{in_memory-CasLaws, idle}
use opendata_go.Store.Memory.Answers.{in_memory-Reliable}
use opendata_go.Enqueuer.Log.{LogAt, IsItem}
use opendata_go.Manifest.{QueueEntry}
use opendata_go.Manifest.Layout.{ranges_bytes, length-body_bytes}
use opendata_go.Enqueuer.Commit.{Neighbours}
use opendata_go.Committer.{UploadCompletion, Drained, item_of, items_of}
use opendata_go.Committer.Order.{uploaded}
use opendata_go.Committer.Run.{Arrivals, received, manifest_committer}
use opendata_go.Producer.Appends.Ordered.{manifest_committer-commits_in_order}
use mathlib.Core.List.{Perm}
use mathlib.Core.List.Perm
use opendata_go.Enqueuer.Keeps.{Holds, OthersAdd, Reliable-FailSafe}
use opendata_go.Producer.Appends.Enqueued.{
  enqueue_attempt, items_of_entries, ManifestOf, cas_with_retry-Logs,
}

abbrev outcome : ℕ → Option Error
outcome n = if n == 0 then some storage else none

abbrev ambiguous : List EnqueueItem → List EnqueueItem → Attempt (List EnqueueItem)
ambiguous items log = record { state = log ++ items; conflicts = 0; error = outcome (length log) }

abbrev item : EnqueueItem
item = record { location = 1 ∷ []; metadata = [] }

-- The batch is there twice.
twice : (retried ambiguous (λ k. false) 3 (item ∷ []) []).0 ≡ item ∷ item ∷ []
unfolding with_retry retry_loop
twice = refl

abbrev path : Bytes
path = 109 ∷ []

abbrev alone : ℕ → InMemory → InMemory
alone k s = s

alone-OthersAdd : OthersAdd in_memory-CasLaws path alone
alone-OthersAdd k s es (next, log) = (
  [],
  (next, subst (λ l. LogAt (in_memory-CasLaws.view s path) l next) (sym (append-nil es)) log),
)

cas_with_retry-Logs_example :
    Logs
      (retried (enqueue_attempt in_memory path alone 1) (λ k. false) 3)
      (ManifestOf in_memory-CasLaws path alone)
      IsItem
      10
cas_with_retry-Logs_example =
    cas_with_retry-Logs in_memory-CasLaws path alone alone-OthersAdd
      (Reliable-FailSafe in_memory-CasLaws in_memory-Reliable) 1 (λ k. false) 3 10 (omega arith)

-- Batch 1 arrives before batch 0.
abbrev batch_of : ℕ → UploadCompletion
batch_of n = record {
  eb = record {
    ordinal = n;
    payload = [];
    metadata = [];
    watchers = n ∷ [];
    flush_ack = none;
    location = n ∷ [];
    byte_cost = 10;
  };
  put_error = none;
  encode_failed = false;
}

abbrev out_of_order : List Arrivals
out_of_order =
    record { first = batch_of 1; more = [] } ∷ record { first = batch_of 0; more = [] } ∷ []

abbrev in_order : List UploadCompletion
in_order = batch_of 0 ∷ batch_of 1 ∷ []

out_of_order-Perm : Perm (received out_of_order) in_order
unfolding received
out_of_order-Perm = Perm.swap (batch_of 0) (batch_of 1) _

alone-Neighbours : Neighbours in_memory-CasLaws path alone
unfolding in_memory-CasLaws
alone-Neighbours = record { write = λ k s. idle; keep = λ k s v. v }

nothing_yet : Holds in_memory-CasLaws path new_in_memory []
unfolding in_memory-CasLaws
nothing_yet = (0, (refl, refl))

no_ranges : length (ranges_bytes []) ≡ 0
unfolding ranges_bytes
no_ranges = refl

batch-IsItem : (n : ℕ) → IsItem (item_of (batch_of n))
batch-IsItem n = record {
  sequence_fits = omega arith;
  location_fits = omega arith;
  count_fits = omega arith;
  body_fits = omega (arith, length-body_bytes (entry_of (item_of (batch_of n))), no_ranges);
  ranges = tt;
}

in_order_fits : All IsItem (items_of (uploaded in_order))
unfolding items_of uploaded
in_order_fits = (batch-IsItem 0, (batch-IsItem 1, tt))

two_items : length (items_of (uploaded in_order)) ≡ 2
unfolding items_of uploaded
two_items = refl

abbrev beginning : InMemory × ConflictCounter
beginning = (new_in_memory, record { write_count = 0; conflict_count = 0 })

manifest_committer-commits_in_order_example :
    (d : Drained (InMemory × ConflictCounter)) × (manifest_committer
        (retried (enqueue_attempt in_memory path alone 1) (λ k. false) 3)
        2
        out_of_order
        false
        beginning
      ≡ some d)
    × (d.committer.ready ≡ [])
    × (es' : List QueueEntry) × Holds in_memory-CasLaws path d.state.0 es'
    × (items_of_entries es' ≡ items_of_entries [] ++ items_of (uploaded in_order))
manifest_committer-commits_in_order_example =
    manifest_committer-commits_in_order in_memory-CasLaws path alone alone-Neighbours
      in_memory-Reliable (λ k h s. refl) 1 (omega arith) (λ k. false) 3 2 out_of_order false
      beginning [] in_order (omega arith) (omega arith) (refl, (refl, tt)) out_of_order-Perm
      nothing_yet in_order_fits (omega (arith, two_items))
