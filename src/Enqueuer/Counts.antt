-- ===== src/Enqueuer/Counts.antt =====
-- buffer/manifest.go: what `enqueueBatch` adds to the counters of writes and conflicts.
use opendata_go.Base.{
  refl, subst, Error, Option, if_else, ◌∙◌, sym, false, ok, err, panic, some, ◌≡◌, inl, inr, ◌+◌,
  ◌<◌, ◌^◌, ◌==◌, List, ℕ, zero, suc, length, arith, Outcome-cases,
}
use mathlib.Core.Option.{some-injective}
use opendata_go.Bytes.{Bytes, u64}
use opendata_go.Store.{ObjectStore, Version}
use opendata_go.Enqueuer.{
  EnqueueItem, ConflictCounter, EnqueueResult, record_write, record_conflict, enqueue_batch,
  enqueue_loop, prepare, after_put, again, finish,
}
use opendata_go.Enqueuer.Rounds.{round_finished, round_again, round_failed, round_crashed}
use opendata_go.Enqueuer.Commit.{Verdict-cases}

-- `conflicts` conflicts, each counted as a write and as a conflict, and `last_write` further writes.
pub record Counted (before : ConflictCounter) (conflicts last_write : ℕ) (after : ConflictCounter)
    : Type 0 where
  pub conflicts_are : after.conflict_count ≡ u64 (before.conflict_count + conflicts)
  pub writes_are : after.write_count ≡ u64 (before.write_count + (conflicts + last_write))

abbrev pub InRange : ConflictCounter → Type 0
InRange c = (c.write_count < 2 ^ 64) × (c.conflict_count < 2 ^ 64)

-- Rounds from round `k` in state `s` on, with the result `r`: each round before the last lost its
-- write to another client, and the last made `last_write` writes, one or none.
pub data Rounds {S : Type 0} (o : ObjectStore S) (path : Bytes) (between : ℕ → S → S)
    (items : List EnqueueItem) (last_write : ℕ) (r : EnqueueResult S) : ℕ → S → Type 0 where
  lost :
      {k : ℕ} {s : S} (bytes : Bytes) (version : Option Version)
      → (prepare o path between items s).1 ≡ ok (bytes, version)
      → after_put
          (o.put_if_match path bytes version (between k (prepare o path between items s).0)).1
        ≡ again
      → Rounds o path between items last_write r
          (k + 1)
          (o.put_if_match path bytes version (between k (prepare o path between items s).0)).0
      → Rounds o path between items last_write r k s
  wrote :
      {k : ℕ} {s : S} (bytes : Bytes) (version : Option Version)
      → last_write ≡ 1
      → r.conflicts ≡ k
      → (prepare o path between items s).1 ≡ ok (bytes, version)
      → after_put
          (o.put_if_match path bytes version (between k (prepare o path between items s).0)).1
        ≡ finish r.outcome
      → r.state
        ≡ (o.put_if_match path bytes version (between k (prepare o path between items s).0)).0
      → Rounds o path between items last_write r k s
  failed :
      {k : ℕ} {s : S} (x : Error)
      → last_write ≡ 0
      → r.conflicts ≡ k
      → (prepare o path between items s).1 ≡ err x
      → r.outcome ≡ err x
      → r.state ≡ (prepare o path between items s).0
      → Rounds o path between items last_write r k s
  crashed :
      {k : ℕ} {s : S}
      → last_write ≡ 0
      → r.conflicts ≡ k
      → (prepare o path between items s).1 ≡ panic
      → r.outcome ≡ panic
      → r.state ≡ (prepare o path between items s).0
      → Rounds o path between items last_write r k s

module _ {S : Type 0} (o : ObjectStore S) (path : Bytes) (between : ℕ → S → S) where
  abbrev Outcomes : List EnqueueItem → ℕ → ConflictCounter → S → EnqueueResult S → Type 0
  Outcomes items k counter s r =
      (d last_write : ℕ) × (r.conflicts ≡ k + d)
      × Counted counter d last_write r.counter
      × Rounds o path between items last_write r k s

  none_lost :
      (counter : ConflictCounter) (last_write : ℕ) (after : ConflictCounter)
      → InRange counter
      → after.conflict_count ≡ counter.conflict_count
      → after.write_count ≡ u64 (counter.write_count + last_write)
      → Counted counter 0 last_write after
  none_lost counter last_write after (w, c) conflicts writes = record {
    conflicts_are = omega (arith, c, conflicts);
    writes_are = omega (arith, writes);
  }

  enqueue_loop-Counted :
      (fuel : ℕ) (items : List EnqueueItem) (k : ℕ) (counter : ConflictCounter) (s : S)
      (r : EnqueueResult S)
      → InRange counter
      → enqueue_loop o path between fuel items k counter s ≡ some r
      → Outcomes items k counter s r
  enqueue_loop-Counted zero items k counter s r range e = unfold enqueue_loop in absurd (cc e)
  enqueue_loop-Counted (suc fuel) items k counter s r range e =
      elim (Outcome-cases (prepare o path between items s).1) [
        | inl ((bytes, version), prepared) ↦
            let after =
              o.put_if_match path bytes version (between k (prepare o path between items s).0) in
            elim (Verdict-cases (after_put after.1)) [
              | inl refused ↦
                  let next = record_conflict (record_write counter) in
                  let (d, last_write, conflicts, c, rounds) =
                    enqueue_loop-Counted fuel items (k + 1) next after.0 r
                      (omega arith, omega arith)
                      (sym (
                          round_again o path between items fuel k counter s bytes version prepared
                            refused)
                        ∙ e) in
                  (
                    d + 1,
                    last_write,
                    omega (arith, conflicts),
                    record {
                      conflicts_are = omega (arith, c.conflicts_are);
                      writes_are = omega (arith, c.writes_are);
                    },
                    lost bytes version prepared refused rounds,
                  )
              | inr (x, put) ↦
                  subst (Outcomes items k counter s)
                    (some-injective _ _ (
                      sym (
                        round_finished o path between items fuel k counter s bytes version x
                          prepared put)
                      ∙ e))
                    (
                      0,
                      1,
                      omega arith,
                      none_lost counter 1 (record_write counter) range refl refl,
                      wrote bytes version refl refl prepared put refl,
                    )
            ]
        | inr (inl (x, is_err)) ↦
            subst (Outcomes items k counter s)
              (some-injective _ _
                (sym (round_failed o path between items fuel k counter s x is_err) ∙ e))
              (
                0,
                0,
                omega arith,
                none_lost counter 0 counter range refl (omega (arith, range)),
                failed x refl refl is_err refl refl,
              )
        | inr (inr is_panic) ↦
            subst (Outcomes items k counter s)
              (some-injective _ _
                (sym (round_crashed o path between items fuel k counter s is_panic) ∙ e))
              (
                0,
                0,
                omega arith,
                none_lost counter 0 counter range refl (omega (arith, range)),
                crashed refl refl is_panic refl refl,
              )
      ]

  -- A call of `enqueueBatch` on a batch that is not empty is a run of rounds that lost their write to
  -- another client and a last round, and its result tells how many it lost. It adds the lost rounds to
  -- the counter of conflicts, and to that of writes the lost rounds and one more where the last round
  -- came to its conditional write, whether that write succeeded or failed. Both counters wrap at
  -- 2 ^ 64.
  pub enqueue_batch-Counted :
      (fuel : ℕ) (items : List EnqueueItem) (counter : ConflictCounter) (s : S)
      (r : EnqueueResult S)
      → 0 < length items
      → InRange counter
      → enqueue_batch o path between fuel items counter s ≡ some r
      → (last_write : ℕ) × Counted counter r.conflicts last_write r.counter
        × Rounds o path between items last_write r 0 s
  unfolding enqueue_batch
  enqueue_batch-Counted fuel items counter s r some_items range e =
      let no : (length items == 0) ≡ false = ground (arith, some_items) in
      let (d, last_write, conflicts, c, rounds) =
        enqueue_loop-Counted fuel items 0 counter s r range
          (sym (if_else (length items == 0) no _ _) ∙ e) in
      let same : d ≡ r.conflicts = omega (arith, conflicts) in
      (last_write, subst (λ n. Counted counter n last_write r.counter) same c, rounds)
