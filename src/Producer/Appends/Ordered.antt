-- ===== src/Producer/Appends/Ordered.antt =====
-- buffer/producer.go and buffer/manifest.go: the order in which the committer's batches come to stand in
-- the manifest, where the store answers and nobody else writes.
use opendata_go.Base.{
  All, none, some, ◌≡◌, ◌+◌, ◌++◌, ◌<◌, ◌≤◌, ◌^◌, List, [], ◌∷◌, ℕ, zero, suc, length, arith, refl,
  ap, sym, subst, ◌∙◌, Bool, length-append,
}
use mathlib.Core.List.{Perm}
use opendata_go.Bytes.{Bytes}
use opendata_go.Manifest.{QueueEntry}
use opendata_go.Store.{ObjectStore, CasLaws}
use opendata_go.Enqueuer.{EnqueueItem, ConflictCounter}
use opendata_go.Enqueuer.Log.{IsItem, numbered, length-numbered}
use opendata_go.Enqueuer.Commit.{Neighbours}
use opendata_go.Enqueuer.Terminates.{Reliable, QuietFrom}
use opendata_go.Enqueuer.Keeps.{Holds}
use opendata_go.Enqueuer.Quiet.{enqueue_batch_appends}
use opendata_go.Committer.{UploadCompletion, Drained, items_of}
use opendata_go.Committer.Order.{Writes, uploaded}
use opendata_go.Committer.Numbered.{NumberedFrom}
use opendata_go.Committer.Run.{Arrivals, received, manifest_committer}
use opendata_go.Committer.Run.Arrival.{manifest_committer-Advanced}
use opendata_go.Producer.Retry.{Attempt, retry_loop, attempts_of, with_retry}
use opendata_go.Producer.Appends.{retried}
use opendata_go.Producer.Appends.Enqueued.{
  reported_error, attempt_of, enqueue_attempt, items_of_entries, items_of_entries-append,
  items_of_entries-numbered,
}

All-left : (xs ys : List EnqueueItem) → All IsItem (xs ++ ys) → All IsItem xs
All-left [] ys fit = tt
All-left (x ∷ xs) ys fit = (fit.0, All-left xs ys fit.1)

All-right : (xs ys : List EnqueueItem) → All IsItem (xs ++ ys) → All IsItem ys
All-right [] ys fit = fit
All-right (x ∷ xs) ys fit = All-right xs ys fit.1

first_succeeds :
    {S : Type 0} (attempt : S → Attempt S) (shutdown_at : ℕ → Bool) (left : ℕ) (s : S)
    → 1 ≤ left
    → (attempt s).error ≡ none
    → ((retry_loop attempt shutdown_at (λ e. e) left 0 0 none s).error ≡ none)
      × ((retry_loop attempt shutdown_at (λ e. e) left 0 0 none s).state ≡ (attempt s).state)
unfolding retry_loop
first_succeeds attempt shutdown_at zero s h worked = absurd (omega (arith, h))
first_succeeds attempt shutdown_at (suc left) s h worked =
    (rw (worked, retry_loop) refl, rw (worked, retry_loop) refl)

module _ {S : Type 0} {o : ObjectStore S} (laws : CasLaws o) (path : Bytes) (between : ℕ → S → S)
    (others : Neighbours laws path between) (reliable : Reliable o)
    (quiet : QuietFrom laws path between 0) (fuel : ℕ) (some_fuel : 0 < fuel)
    (shutdown_at : ℕ → Bool) (max_attempts : ℕ) where
  -- The manifest holds these items and has room for those that are to come, which fit.
  abbrev Expects : S × ConflictCounter → List EnqueueItem → List EnqueueItem → Type 0
  Expects z done todo =
      (es : List QueueEntry) × Holds laws path z.0 es
      × (done ≡ items_of_entries es)
      × All IsItem todo
      × (length es + length todo < 2 ^ 32)

  enqueue_attempt-appends :
      (item : EnqueueItem) (items todo : List EnqueueItem) (z : S × ConflictCounter)
      (done : List EnqueueItem)
      → Expects z done ((item ∷ items) ++ todo)
      → ((enqueue_attempt o path between fuel (item ∷ items) z).error ≡ none)
        × Expects
            (enqueue_attempt o path between fuel (item ∷ items) z).state
            (done ++ (item ∷ items))
            todo
  unfolding enqueue_attempt
  enqueue_attempt-appends item items todo (s, counter) done (es, (next, log), is_done, fit, room) =
      let new = item ∷ items in
      let (r, e, fine, now) =
        enqueue_batch_appends laws path between others fuel new counter s es next reliable quiet
          some_fuel (omega arith) log (All-left new todo fit)
          (omega (arith, room, length-append new todo)) in
      subst
        (λ x.
          ((attempt_of (s, counter) x).error ≡ none)
          × Expects (attempt_of (s, counter) x).state (done ++ new) todo)
        (sym e)
        (
          ap reported_error fine,
          (
            es ++ numbered next new,
            (_, now),
            ap (λ l. l ++ new) is_done
                ∙ ap (λ l. items_of_entries es ++ l) (sym (items_of_entries-numbered next new))
                ∙ sym (items_of_entries-append es (numbered next new)),
            All-right new todo fit,
            omega (
              arith,
              room,
              length-append new todo,
              length-append es (numbered next new),
              length-numbered new next,
            ),
          ),
        )

  retried-Writes :
      Writes (retried (enqueue_attempt o path between fuel) shutdown_at max_attempts) Expects
  unfolding with_retry
  retried-Writes = record {
    written = λ item items todo z done here.
        let (fine, now) = enqueue_attempt-appends item items todo z done here in
        let (no_error, same) =
          first_succeeds (enqueue_attempt o path between fuel (item ∷ items)) shutdown_at
            (attempts_of max_attempts) z (ground arith) fine in
        (no_error, subst (λ y. Expects y (done ++ (item ∷ items)) todo) (sym same) now);
  }

  -- On a store that answers every call and a manifest that nobody else writes, a whole run of the
  -- committer, whose writes are `casWithRetry` over `enqueueBatch`, ends and leaves no batch behind,
  -- whatever the order and grouping in which the completions arrive: the manifest then holds what it
  -- held, and behind it exactly the uploaded batches in the order of their ordinals. The completions
  -- bear the ordinals 0, 1, … of `sorted`, fewer than 2 ^ 64; the manifest has room for those that were
  -- uploaded, and the format can hold each of them; a group may hold at least one.
  pub manifest_committer-commits_in_order :
      (batch_size : ℕ) (arrivals : List Arrivals) (in_gather : Bool) (z : S × ConflictCounter)
      (es : List QueueEntry) (sorted : List UploadCompletion)
      → 1 ≤ batch_size
      → length sorted < 2 ^ 64
      → NumberedFrom 0 sorted
      → Perm (received arrivals) sorted
      → Holds laws path z.0 es
      → All IsItem (items_of (uploaded sorted))
      → length es + length (items_of (uploaded sorted)) < 2 ^ 32
      → (d : Drained (S × ConflictCounter)) × (manifest_committer
            (retried (enqueue_attempt o path between fuel) shutdown_at max_attempts)
            batch_size
            arrivals
            in_gather
            z
          ≡ some d)
        × (d.committer.ready ≡ [])
        × (es' : List QueueEntry) × Holds laws path d.state.0 es'
        × (items_of_entries es' ≡ items_of_entries es ++ items_of (uploaded sorted))
  manifest_committer-commits_in_order batch_size arrivals in_gather z es sorted b small numbered p
        held fit room =
      let (d, ran, (es', held', is_done, nothing, fits), nothing_left) =
        manifest_committer-Advanced
          (retried (enqueue_attempt o path between fuel) shutdown_at max_attempts) batch_size
          Expects retried-Writes arrivals in_gather z (items_of_entries es) sorted b small numbered
          p (es, held, refl, fit, room) in
      (d, ran, nothing_left, es', held', sym is_done)
