-- ===== src/Producer/Appends.antt =====
-- buffer/producer.go: `casWithRetry`, as the committer relies on it: a write that failed may have been
-- stored all the same, and is made again.
pub mod Enqueued
pub mod Ordered
mod Tests
use opendata_go.Base.{
  All, length, subst, refl, ap, sym, ◌∙◌, Bool, Option, none, some, ◌≡◌, ◌≢◌, ◌⊎◌, inl, inr, ◌≤◌,
  ◌+◌, ◌||◌, ◌==◌, not, Error, List, [], ◌++◌, ℕ, zero, suc, arith, append_assoc, append-nil,
  Option-cases, Bool-cases,
}
use opendata_go.Enqueuer.{EnqueueItem}
use opendata_go.Committer.Run.Reported.{Logs}
use opendata_go.Producer.Retry.{
  Attempt, RetryResult, attempts_of, wrapped, retry_loop, with_retry, cas_with_retry,
}

-- One attempt on the shared manifest, on at most `most` items that fit: without an error it has added
-- them, and it removes none.
pub record AttemptLogs {S : Type 0} (attempt : List EnqueueItem → S → Attempt S)
    (Log : S → List EnqueueItem → Type 0) (Fit : EnqueueItem → Type 0) (most : ℕ) : Type 0 where
  pub added :
      (items : List EnqueueItem) (s : S) (l : List EnqueueItem)
      → Log s l
      → All Fit items
      → length items ≤ most
      → (attempt items s).error ≡ none
      → (others : List EnqueueItem) × Log (attempt items s).state (l ++ (others ++ items))
  pub kept :
      (items : List EnqueueItem) (s : S) (l : List EnqueueItem)
      → Log s l
      → All Fit items
      → length items ≤ most
      → (more : List EnqueueItem) × Log (attempt items s).state (l ++ more)

-- What the `cas` of the committer is.
abbrev pub retried :
    {S : Type 0}
    → (List EnqueueItem → S → Attempt S)
    → (ℕ → Bool)
    → ℕ
    → List EnqueueItem
    → S
    → S × Option Error
retried attempt shutdown_at max_attempts items s =
    let r = cas_with_retry (attempt items) shutdown_at max_attempts s in (r.state, r.error)

module _ {S : Type 0} (attempt : List EnqueueItem → S → Attempt S)
    (Log : S → List EnqueueItem → Type 0) (Fit : EnqueueItem → Type 0) (most : ℕ)
    (logs : AttemptLogs attempt Log Fit most) (shutdown_at : ℕ → Bool) (items : List EnqueueItem)
    (fit : All Fit items) (few : length items ≤ most) where
  loop : ℕ → ℕ → ℕ → Option Error → S → RetryResult S
  loop left k conflicts x s = retry_loop (attempt items) shutdown_at (λ e. e) left k conflicts x s

  loop-kept :
      (left k conflicts : ℕ) (x : Option Error) (s : S) (l : List EnqueueItem)
      → Log s l
      → (more : List EnqueueItem) × Log (loop left k conflicts x s).state (l ++ more)
  unfolding loop retry_loop
  loop-kept zero k conflicts x s l here = ([], subst (Log s) (sym (append-nil l)) here)
  loop-kept (suc left) k conflicts x s l here =
      let (first, now) = logs.kept items s l here fit few in
      elim (Option-cases (attempt items s).error) [
        | inl fine ↦ (first, rw (fine, retry_loop) now)
        | inr (y, failed) ↦ elim (Bool-cases ((left == 0) || not (shutdown_at k))) [
          | inl again ↦
              let (rest, later) =
                loop-kept left (k + 1) (conflicts + (attempt items s).conflicts) (some y)
                  (attempt items s).state (l ++ first) now in
              (
                first ++ rest,
                rw (failed, again, retry_loop) (subst (Log _) (append_assoc l first rest) later),
              )
          | inr stop ↦ (first, rw (failed, stop, retry_loop) now)
        ]
      ]

  loop-added :
      (left k conflicts : ℕ) (x : Option Error) (s : S) (l : List EnqueueItem)
      → Log s l
      → (x ≢ none) ⊎ (1 ≤ left)
      → (loop left k conflicts x s).error ≡ none
      → (others : List EnqueueItem) × Log (loop left k conflicts x s).state (l ++ (others ++ items))
  unfolding loop retry_loop
  loop-added zero k conflicts none s l here (inl h) fine = absurd (h refl)
  loop-added zero k conflicts (some y) s l here (inl h) fine = absurd (cc fine)
  loop-added zero k conflicts x s l here (inr h) fine = absurd (omega (arith, h))
  loop-added (suc left) k conflicts x s l here h fine =
      elim (Option-cases (attempt items s).error) [
        | inl worked ↦
            let (others, now) = logs.added items s l here fit few worked in
            (others, rw (worked, retry_loop) now)
        | inr (y, failed) ↦ elim (Bool-cases ((left == 0) || not (shutdown_at k))) [
          | inl again ↦
              let fine' = rw (failed, again, retry_loop) at fine in
              let (first, now) = logs.kept items s l here fit few in
              let (others, later) =
                loop-added left (k + 1) (conflicts + (attempt items s).conflicts) (some y)
                  (attempt items s).state (l ++ first) now (inl (λ bad. cc bad)) fine' in
              (
                first ++ others,
                rw (failed, again, retry_loop)
                    (subst (Log _)
                      (append_assoc l first (others ++ items)
                        ∙ ap (λ m. l ++ m) (sym (append_assoc first others items)))
                      later),
              )
          | inr stop ↦ absurd (cc (rw (failed, stop, retry_loop) at fine))
        ]
      ]

-- `casWithRetry` keeps what its attempts keep, also where attempts that failed have added items.
pub retried-Logs :
    {S : Type 0} (attempt : List EnqueueItem → S → Attempt S) (Log : S → List EnqueueItem → Type 0)
    (Fit : EnqueueItem → Type 0) (most : ℕ) (shutdown_at : ℕ → Bool) (max_attempts : ℕ)
    → AttemptLogs attempt Log Fit most
    → Logs (retried attempt shutdown_at max_attempts) Log Fit most
unfolding with_retry
retried-Logs attempt Log Fit most shutdown_at max_attempts logs = record {
  added = λ items s l here fit few fine.
      unfold loop in
      loop-added attempt Log Fit most logs shutdown_at items fit few (attempts_of max_attempts) 0 0
        none s l here (inr (ground arith)) fine;
  kept = λ items s l here fit few.
      unfold loop in
      loop-kept attempt Log Fit most logs shutdown_at items fit few (attempts_of max_attempts) 0 0
        none s l here;
}
