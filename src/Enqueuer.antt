-- ===== src/Enqueuer.antt =====
-- buffer/manifest.go: `conflictCounter` and `manifestEnqueuer`, which appends entries to a shared
-- manifest by read, change and conditional write, again and again while others write in between.
pub mod Log
pub mod Read
pub mod Rounds
pub mod Commit
pub mod Terminates
pub mod Counts
pub mod Keeps
pub mod Quiet
mod Tests
use opendata_go.Base.{
  not_found, precondition_failed, panic, [], ◌==◌, zero, storage, suc, length, err, some, ◌∷◌, none,
  ok, ◌>>=◌, if◌then◌else◌, ◌+◌, Outcome, Option, ℕ, List,
}
use opendata_go.Bytes.{Bytes, u64}
use opendata_go.Manifest.{QueueMetadata, QueueEntry, Manifest}
use opendata_go.Manifest.Encode.{empty_manifest, manifest_from_bytes, append, to_bytes}
use opendata_go.Store.{Version, GetResult, ObjectStore}

-- `conflictCounter`: two atomic uint64. (`conflictRate` is their quotient as a float64.)
pub record ConflictCounter : Type 0 where
  pub write_count : ℕ
  pub conflict_count : ℕ

abbrev pub record_write : ConflictCounter → ConflictCounter
record_write c = record c { write_count = u64 (c.write_count + 1) }

abbrev pub record_conflict : ConflictCounter → ConflictCounter
record_conflict c = record c { conflict_count = u64 (c.conflict_count + 1) }

pub record EnqueueItem : Type 0 where
  pub location : Bytes
  pub metadata : List QueueMetadata

-- `QueueEntry{Location: …, Metadata: …}`: the sequence is 0 until `append` sets it.
abbrev pub entry_of : EnqueueItem → QueueEntry
entry_of item = record { sequence = 0; location = item.location; metadata = item.metadata }

-- The loop over `items`.
unfoldable pub append_all : Manifest → List EnqueueItem → Outcome Manifest
append_all m [] = ok m
append_all m (item ∷ items) = do m' ← append m (entry_of item); append_all m' items

-- The body of `readManifest` behind the `Get`.
unfoldable pub manifest_of : Outcome GetResult → Outcome (Manifest × Option Version)
manifest_of (ok r) = do m ← manifest_from_bytes r.bytes; ok (m, some r.version)
manifest_of (err not_found) = ok (empty_manifest, none)
manifest_of (err e) = err storage
manifest_of panic = panic

-- What to do once the conditional write has returned.
pub data Verdict : Type 0 where
  again : Verdict
  finish : Outcome (Unit {0}) → Verdict

unfoldable pub after_put : Outcome (Unit {0}) → Verdict
after_put (ok u) = finish (ok tt)
after_put (err precondition_failed) = again
after_put (err e) = finish (err storage)
after_put panic = finish panic

pub record EnqueueResult (S : Type 0) : Type 0 where
  pub state : S
  pub counter : ConflictCounter
  pub conflicts : ℕ
  pub outcome : Outcome (Unit {0})

-- `between k` is what other clients do in round `k` between this client's `Get` and its
-- `PutIfMatch`. The context is part of the store's state: a call fails once it is done.
module _ {S : Type 0} (o : ObjectStore S) (path : Bytes) (between : ℕ → S → S) where
  unfoldable pub read_manifest : S → S × Outcome (Manifest × Option Version)
  unfolding manifest_of
  read_manifest s = ((o.get path s).0, manifest_of (o.get path s).1)

  -- One round up to the write: what to write, and under which version.
  unfoldable pub prepare : List EnqueueItem → S → S × Outcome (Bytes × Option Version)
  prepare items s = (
    (read_manifest s).0,
    (do
      (m, version) ← (read_manifest s).1
      m' ← append_all m items
      bytes ← to_bytes m'
      ok (bytes, version)),
  )

  -- The `for` loop, on fuel; `conflicts` counts the rounds that failed.
  unfoldable pub enqueue_loop :
      ℕ → List EnqueueItem → ℕ → ConflictCounter → S → Option (EnqueueResult S)
  enqueue_loop zero items conflicts counter s = none
  enqueue_loop (suc fuel) items conflicts counter s = elim (prepare items s).1 [
    | err e ↦ some (record {
      state = (prepare items s).0;
      counter = counter;
      conflicts = conflicts;
      outcome = err e;
    })
    | panic ↦ some (record {
      state = (prepare items s).0;
      counter = counter;
      conflicts = conflicts;
      outcome = panic;
    })
    | ok (bytes, version) ↦
        let after = o.put_if_match path bytes version (between conflicts (prepare items s).0) in
        elim (after_put after.1) [
          | finish r ↦ some (record {
            state = after.0;
            counter = record_write counter;
            conflicts = conflicts;
            outcome = r;
          })
          | again ↦
              enqueue_loop fuel items (conflicts + 1) (record_conflict (record_write counter))
                after.0
        ]
  ]

  unfoldable pub enqueue_batch :
      ℕ → List EnqueueItem → ConflictCounter → S → Option (EnqueueResult S)
  unfolding enqueue_loop prepare read_manifest
  enqueue_batch fuel items counter s =
      if length items == 0
      then some (record { state = s; counter = counter; conflicts = 0; outcome = ok tt })
      else enqueue_loop fuel items 0 counter s
