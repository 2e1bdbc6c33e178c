-- ===== src/Enqueuer/Rounds.antt =====
-- buffer/manifest.go: one round of the loop of `enqueueBatch`, case by case.
use opendata_go.Base.{suc, Error, panic, err, ◌+◌, ◌≡◌, Outcome, ok, Option, some, ℕ, List}
use opendata_go.Bytes.{Bytes}
use opendata_go.Store.{Version, ObjectStore}
use opendata_go.Enqueuer.{
  record_write, record_conflict, EnqueueItem, after_put, again, finish, ConflictCounter, prepare,
  enqueue_loop,
}

module _ {S : Type 0} (o : ObjectStore S) (path : Bytes) (between : ℕ → S → S)
    (items : List EnqueueItem) where
  -- The four ways that a round can go.
  pub round_finished :
      (fuel conflicts : ℕ) (counter : ConflictCounter) (s : S) (bytes : Bytes)
      (version : Option Version) (x : Outcome (Unit {0}))
      → (prepare o path between items s).1 ≡ ok (bytes, version)
      → after_put
          (o.put_if_match path bytes version
            (between conflicts (prepare o path between items s).0)).1
        ≡ finish x
      → enqueue_loop o path between (suc fuel) items conflicts counter s
        ≡ some (record {
          state =
              (o.put_if_match path bytes version
                (between conflicts (prepare o path between items s).0)).0;
          counter = record_write counter;
          conflicts = conflicts;
          outcome = x;
        })
  unfolding enqueue_loop prepare
  round_finished fuel conflicts counter s bytes version x prepared put =
      rw (prepared, put, enqueue_loop)

  pub round_again :
      (fuel conflicts : ℕ) (counter : ConflictCounter) (s : S) (bytes : Bytes)
      (version : Option Version)
      → (prepare o path between items s).1 ≡ ok (bytes, version)
      → after_put
          (o.put_if_match path bytes version
            (between conflicts (prepare o path between items s).0)).1
        ≡ again
      → enqueue_loop o path between (suc fuel) items conflicts counter s
        ≡ enqueue_loop o path between fuel items
            (conflicts + 1)
            (record_conflict (record_write counter))
            (o.put_if_match path bytes version
              (between conflicts (prepare o path between items s).0)).0
  unfolding enqueue_loop
  round_again fuel conflicts counter s bytes version prepared put = rw (prepared, put, enqueue_loop)

  pub round_failed :
      (fuel conflicts : ℕ) (counter : ConflictCounter) (s : S) (x : Error)
      → (prepare o path between items s).1 ≡ err x
      → enqueue_loop o path between (suc fuel) items conflicts counter s
        ≡ some (record {
          state = (prepare o path between items s).0;
          counter = counter;
          conflicts = conflicts;
          outcome = err x;
        })
  unfolding enqueue_loop prepare
  round_failed fuel conflicts counter s x failed = rw (failed, enqueue_loop)

  pub round_crashed :
      (fuel conflicts : ℕ) (counter : ConflictCounter) (s : S)
      → (prepare o path between items s).1 ≡ panic
      → enqueue_loop o path between (suc fuel) items conflicts counter s
        ≡ some (record {
          state = (prepare o path between items s).0;
          counter = counter;
          conflicts = conflicts;
          outcome = panic;
        })
  unfolding enqueue_loop prepare
  round_crashed fuel conflicts counter s crashed = rw (crashed, enqueue_loop)
