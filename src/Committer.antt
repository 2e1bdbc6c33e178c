-- ===== src/Committer.antt =====
-- buffer/producer.go: `manifestCommitter`, which commits uploaded batches in the order of their
-- ordinals, in groups, and hands each one's result to the watcher resolver. The observer's calls and
-- the clock of the head-of-line measure are left out.
pub mod Ready
pub mod Fitting
pub mod Accounts
pub mod Order
pub mod Numbered
pub mod Distinct
pub mod Run
mod Tests
use opendata_go.Base.{
  shutdown, length, zero, true, ◌+◌, ◌++◌, producer_halted, ◌==◌, Error, some, none, suc,
  if◌then◌else◌, ◌∷◌, Bool, List, [], Option, ℕ,
}
use opendata_go.Bytes.{Bytes, u64}
use opendata_go.Manifest.{QueueMetadata}
use opendata_go.Enqueuer.{EnqueueItem}

-- `encodedBatch`: watchers and the flush acknowledgement are named by numbers.
pub record EncodedBatch : Type 0 where
  pub ordinal : ℕ
  pub payload : Bytes
  pub metadata : List QueueMetadata
  pub watchers : List ℕ
  pub flush_ack : Option ℕ
  pub location : Bytes
  pub byte_cost : ℕ

pub record UploadCompletion : Type 0 where
  pub eb : EncodedBatch
  pub put_error : Option Error
  pub encode_failed : Bool

pub data BatchOutcome : Type 0 where
  committed : BatchOutcome
  encode_failure : BatchOutcome
  upload_failure : BatchOutcome
  manifest_failure : BatchOutcome
  abandoned : BatchOutcome

-- `resolverItem`, with the whole completion that it is made of.
pub record ResolverItem : Type 0 where
  pub completion : UploadCompletion
  pub error : Option Error
  pub outcome : BatchOutcome

-- The map `ready`, its entries under their own ordinals.
abbrev pub Ready : Type 0
Ready = List UploadCompletion

unfoldable pub ready_at : ℕ → Ready → Option UploadCompletion
ready_at k [] = none
ready_at k (uc ∷ ready) = if uc.eb.ordinal == k then some uc else ready_at k ready

-- `delete(ready, k)`.
unfoldable pub remove : ℕ → Ready → Ready
remove k [] = []
remove k (uc ∷ ready) = if uc.eb.ordinal == k then ready else uc ∷ remove k ready

-- `ready[uc.eb.ordinal] = uc`.
unfoldable pub place : UploadCompletion → Ready → Ready
unfolding remove
place uc ready = uc ∷ remove uc.eb.ordinal ready

-- The loop of `gather`.
unfoldable pub gathered : List UploadCompletion → Ready → Ready
unfolding place remove
gathered [] ready = ready
gathered (uc ∷ more) ready = gathered more (place uc ready)

pub record Group : Type 0 where
  pub group : List UploadCompletion
  pub failed : List UploadCompletion
  pub next : ℕ
  pub ready : Ready

-- Where a completion goes is up to its error.
abbrev pub filed : Option Error → UploadCompletion → Group → Group
filed none uc g = record g { group = uc ∷ g.group }
filed (some e) uc g = record g { failed = uc ∷ g.failed }

abbrev pub add_to_group : UploadCompletion → Group → Group
add_to_group uc g = filed uc.put_error uc g

-- The inner loop: at most `room` completions, as long as the next ordinal is there.
unfoldable pub take_group : ℕ → ℕ → Ready → Group
take_group zero next ready = record { group = []; failed = []; next = next; ready = ready }
take_group (suc room) next ready = elim (ready_at next ready) [
  | none ↦ record { group = []; failed = []; next = next; ready = ready }
  | some uc ↦ add_to_group uc (take_group room (u64 (next + 1)) (remove next ready))
]

abbrev pub item_of : UploadCompletion → EnqueueItem
item_of uc = record { location = uc.eb.location; metadata = uc.eb.metadata }

unfoldable pub items_of : List UploadCompletion → List EnqueueItem
items_of [] = []
items_of (uc ∷ ucs) = item_of uc ∷ items_of ucs

unfoldable pub resolve_all : Option Error → BatchOutcome → List UploadCompletion → List ResolverItem
resolve_all e o [] = []
resolve_all e o (uc ∷ ucs) =
    record { completion = uc; error = e; outcome = o } ∷ resolve_all e o ucs

-- The result of a batch that was not uploaded is the upload's.
unfoldable pub resolve_failed : List UploadCompletion → List ResolverItem
resolve_failed [] = []
resolve_failed (uc ∷ ucs) =
    record {
      completion = uc;
      error = uc.put_error;
      outcome = if uc.encode_failed then encode_failure else upload_failure;
    }
    ∷ resolve_failed ucs

pub record Committer : Type 0 where
  pub next : ℕ
  pub ready : Ready
  pub halted : Bool

pub record Drained (S : Type 0) : Type 0 where
  pub committer : Committer
  pub state : S
  pub resolved : List ResolverItem

abbrev pub after_resolving :
    {S : Type 0} → List ResolverItem → Option (Drained S) → Option (Drained S)
after_resolving out none = none
after_resolving out (some d) = some (record d { resolved = out ++ d.resolved })

-- What follows the manifest's write: resolve the group with a result and go on, or halt.
pub data AfterCas : Type 0 where
  go_on : Option Error → BatchOutcome → AfterCas
  halt : AfterCas

unfoldable pub after_cas : Option Error → AfterCas
after_cas none = go_on none committed
after_cas (some shutdown) = go_on (some shutdown) manifest_failure
after_cas (some e) = halt

-- `cas` is `casWithRetry` on the manifest's store; `none` is no error.
module _ {S : Type 0} (cas : List EnqueueItem → S → S × Option Error) (batch_size : ℕ) where
  -- A group without items makes no call.
  unfoldable pub cas_group : List UploadCompletion → S → S × Option Error
  cas_group [] s = (s, none)
  cas_group (uc ∷ ucs) s = cas (items_of (uc ∷ ucs)) s

  -- The `drain` closure, on fuel. The order of the abandoned ones is the map's, which Go leaves open.
  unfoldable pub drain : ℕ → Committer → S → Option (Drained S)
  drain zero c s = none
  drain (suc fuel) c s =
      let g = take_group batch_size c.next c.ready in
      elim (g.group ++ g.failed) [
        | [] ↦ some (record { committer = c; state = s; resolved = [] })
        | uc ∷ ucs ↦ elim (after_cas (cas_group g.group s).1) [
          | go_on e o ↦
              after_resolving (resolve_all e o g.group ++ resolve_failed g.failed)
                (drain fuel (record c { next = g.next; ready = g.ready }) (cas_group g.group s).0)
          | halt ↦ some (record {
            committer = record { next = g.next; ready = []; halted = true };
            state = (cas_group g.group s).0;
            resolved =
                resolve_all (some producer_halted) manifest_failure g.group
                ++ (resolve_failed g.failed
                    ++ resolve_all (some producer_halted) abandoned g.ready);
          })
        ]
      ]

  -- One turn of the main loop: a completion that was waited for, and those that `gather` found.
  unfoldable pub receive :
      UploadCompletion → List UploadCompletion → Committer → S → Option (Drained S)
  receive uc more c s =
      if c.halted
      then some (record {
        committer = c;
        state = s;
        resolved = resolve_all (some producer_halted) abandoned (uc ∷ more);
      })
      else let ready = gathered more (place uc c.ready) in
        drain (suc (length ready)) (record c { ready = ready }) s
