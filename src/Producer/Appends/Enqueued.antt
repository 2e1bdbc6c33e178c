-- ===== src/Producer/Appends/Enqueued.antt =====
-- buffer/producer.go and buffer/manifest.go: the attempts of `casWithRetry` are calls of `enqueueBatch`.
use opendata_go.Base.{
  All, Option, none, some, ◌≡◌, ◌+◌, ◌++◌, ◌<◌, ◌^◌, List, [], ◌∷◌, ℕ, length, arith, refl, ap, sym,
  subst, ◌∙◌, Error, storage, append-nil, Bool, Outcome, ok, err, panic,
}
use opendata_go.Bytes.{Bytes, u64}
use opendata_go.Manifest.{QueueEntry}
use opendata_go.Store.{ObjectStore, CasLaws}
use opendata_go.Enqueuer.{EnqueueItem, EnqueueResult, ConflictCounter, enqueue_batch}
use opendata_go.Enqueuer.Log.{IsItem, LogAt, numbered}
use opendata_go.Enqueuer.Keeps.{FailSafe, OthersAdd, Holds, Grown, enqueue_batch-Grown}
use opendata_go.Committer.Run.Reported.{Logs}
use opendata_go.Producer.Retry.{Attempt}
use opendata_go.Producer.Appends.{AttemptLogs, retried, retried-Logs}

-- The error that an attempt reports. (A panic ends the program.)
abbrev pub reported_error : Outcome (Unit {0}) → Option Error
reported_error (ok u) = none
reported_error (err e) = some e
reported_error panic = some storage

-- A call that has not returned within the fuel counts as one that failed.
abbrev pub attempt_of :
    {S : Type 0} → S × ConflictCounter → Option (EnqueueResult S) → Attempt (S × ConflictCounter)
attempt_of z none = record { state = z; conflicts = 0; error = some storage }
attempt_of z (some r) = record {
  state = (r.state, r.counter);
  conflicts = r.conflicts;
  error = reported_error r.outcome;
}

-- The call that `casWithRetry` makes again and again.
unfoldable pub enqueue_attempt :
    {S : Type 0} (o : ObjectStore S) (path : Bytes) (between : ℕ → S → S) (fuel : ℕ)
    → List EnqueueItem
    → S × ConflictCounter
    → Attempt (S × ConflictCounter)
enqueue_attempt o path between fuel items (s, counter) =
    attempt_of (s, counter) (enqueue_batch o path between fuel items counter s)

abbrev pub item_of_entry : QueueEntry → EnqueueItem
item_of_entry q = record { location = q.location; metadata = q.metadata }

-- The items of a manifest's entries, in order.
unfoldable pub items_of_entries : List QueueEntry → List EnqueueItem
items_of_entries [] = []
items_of_entries (q ∷ es) = item_of_entry q ∷ items_of_entries es

pub items_of_entries-append :
    (es es' : List QueueEntry)
    → items_of_entries (es ++ es') ≡ items_of_entries es ++ items_of_entries es'
unfolding items_of_entries
items_of_entries-append [] es' = refl
items_of_entries-append (q ∷ es) es' =
    ap (λ l. item_of_entry q ∷ l) (items_of_entries-append es es')

pub items_of_entries-numbered :
    (n : ℕ) (items : List EnqueueItem) → items_of_entries (numbered n items) ≡ items
unfolding items_of_entries numbered
items_of_entries-numbered n [] = refl
items_of_entries-numbered n (item ∷ items) =
    ap (λ l. item ∷ l) (items_of_entries-numbered (u64 (n + 1)) items)

module _ {S : Type 0} {o : ObjectStore S} (laws : CasLaws o) (path : Bytes)
    (between : ℕ → S → S) where
  -- The path holds a valid manifest with the entries of these items, in order.
  abbrev pub ManifestOf : S × ConflictCounter → List EnqueueItem → Type 0
  ManifestOf z l = (es : List QueueEntry) × Holds laws path z.0 es × (l ≡ items_of_entries es)

  attempt-kept :
      (items : List EnqueueItem) (es : List QueueEntry) (z : S × ConflictCounter)
      (x : Option (EnqueueResult S))
      → Holds laws path z.0 es
      → ((r : EnqueueResult S) → x ≡ some r → Grown laws path between items es r.state r.outcome)
      → (more : List EnqueueItem) × ManifestOf (attempt_of z x).state (items_of_entries es ++ more)
        × ((attempt_of z x).error ≡ none → (others : List EnqueueItem) × (more ≡ others ++ items))
  attempt-kept items es z none held grown = (
    items_of_entries [],
    (
      es ++ [],
      (held.0, subst (λ l. LogAt (laws.view z.0 path) l held.0) (sym (append-nil es)) held.1),
      sym (items_of_entries-append es []),
    ),
    λ fine. absurd (cc fine),
  )
  attempt-kept items es z (some r) held grown =
      let (more, now, wrote) = grown r refl in
      (
        items_of_entries more,
        (es ++ more, now, sym (items_of_entries-append es more)),
        λ fine.
            let (others, n, e) = wrote (is_ok r.outcome fine) in
            (
              items_of_entries others,
              ap items_of_entries e
                  ∙ items_of_entries-append others (numbered n items)
                  ∙ ap (λ l. items_of_entries others ++ l) (items_of_entries-numbered n items),
            ),
      )
    where
      is_ok : (y : Outcome (Unit {0})) → reported_error y ≡ none → y ≡ ok tt
      is_ok (ok u) h = refl
      is_ok (err e) h = absurd (cc h)
      is_ok panic h = absurd (cc h)

  module _ (adds : OthersAdd laws path between) (safe : FailSafe laws) (fuel : ℕ) where
    enqueue_attempt-kept :
        (items : List EnqueueItem) (z : S × ConflictCounter) (es : List QueueEntry)
        → Holds laws path z.0 es
        → All IsItem items
        → length items < 2 ^ 63
        → (more : List EnqueueItem) × ManifestOf
            (enqueue_attempt o path between fuel items z).state
            (items_of_entries es ++ more)
          × ((enqueue_attempt o path between fuel items z).error ≡ none
              → (others : List EnqueueItem) × (more ≡ others ++ items))
    unfolding enqueue_attempt
    enqueue_attempt-kept items (s, counter) es held fit few =
        attempt-kept items es (s, counter) (enqueue_batch o path between fuel items counter s) held
          (λ r e.
            enqueue_batch-Grown laws path between adds safe fuel items es counter s r held fit few
              e)

    enqueue_attempt-AttemptLogs :
        (most : ℕ)
        → most < 2 ^ 63
        → AttemptLogs (enqueue_attempt o path between fuel) ManifestOf IsItem most
    enqueue_attempt-AttemptLogs most bound = record {
      added = λ items z l (es, held, is_l) fit few fine.
          let (more, now, wrote) =
            enqueue_attempt-kept items z es held fit (omega (arith, bound, few)) in
          let (before, e) = wrote fine in
          (
            before,
            subst (ManifestOf (enqueue_attempt o path between fuel items z).state)
                (ap (λ m. items_of_entries es ++ m) e ∙ ap (λ m. m ++ (before ++ items)) (sym is_l))
                now,
          );
      kept = λ items z l (es, held, is_l) fit few.
          let (more, now, wrote) =
            enqueue_attempt-kept items z es held fit (omega (arith, bound, few)) in
          (
            more,
            subst (ManifestOf (enqueue_attempt o path between fuel items z).state)
                (ap (λ m. m ++ more) (sym is_l)) now,
          );
    }

    -- What `casWithRetry` over `enqueueBatch` leaves in the manifest, on a store whose failures are
    -- those of a network and that others only add to: if it reports no error, the batch's items stand
    -- behind what was there, in order, with at most other items before them, also where attempts that
    -- failed had stored the batch already; and it removes nothing, also where it reports an error. The
    -- items are at most `most`, below 2 ^ 63, and the format can hold each of them.
    pub cas_with_retry-Logs :
        (shutdown_at : ℕ → Bool) (max_attempts most : ℕ)
        → most < 2 ^ 63
        → Logs
            (retried (enqueue_attempt o path between fuel) shutdown_at max_attempts)
            ManifestOf
            IsItem
            most
    cas_with_retry-Logs shutdown_at max_attempts most bound =
        retried-Logs (enqueue_attempt o path between fuel) ManifestOf IsItem most shutdown_at
          max_attempts (enqueue_attempt-AttemptLogs most bound)
