-- ===== src/Enqueuer/Quiet.antt =====
-- buffer/manifest.go: what `enqueueBatch` leaves in the manifest where nobody else writes.
use opendata_go.Base.{
  ap, arith, sym, subst, ◌∙◌, ok, some, inl, inr, ◌≡◌, ◌+◌, ◌++◌, ◌<◌, ◌^◌, List, All, ℕ, zero, suc,
  length, refl,
}
use opendata_go.Bytes.{Bytes, u64}
use opendata_go.Manifest.{QueueEntry}
use opendata_go.Store.{ObjectStore, CasLaws}
use opendata_go.Enqueuer.{
  EnqueueItem, EnqueueResult, ConflictCounter, after_put, prepare, enqueue_batch,
}
use opendata_go.Enqueuer.Log.{numbered, LogAt, IsItem}
use opendata_go.Enqueuer.Read.{prepare_lem}
use opendata_go.Enqueuer.Rounds.{round_finished}
use opendata_go.Enqueuer.Commit.{after_put-ok, after_put-refused, Neighbours, enqueue_batch_lem}
use opendata_go.Enqueuer.Terminates.{Reliable, QuietFrom, accepted, prepare_answers}

-- The batch is added, in order, to exactly what was there.
pub enqueue_batch_appends :
    {S : Type 0} {o : ObjectStore S} (laws : CasLaws o) (path : Bytes) (between : ℕ → S → S)
    (others : Neighbours laws path between) (fuel : ℕ) (items : List EnqueueItem)
    (counter : ConflictCounter) (s : S) (es : List QueueEntry) (next : ℕ)
    → Reliable o
    → QuietFrom laws path between 0
    → 0 < fuel
    → 0 < length items
    → LogAt (laws.view s path) es next
    → All IsItem items
    → length es + length items < 2 ^ 32
    → (r : EnqueueResult S) × (enqueue_batch o path between fuel items counter s ≡ some r)
      × (r.outcome ≡ ok tt)
      × LogAt (laws.view r.state path) (es ++ numbered next items) (u64 (next + length items))
enqueue_batch_appends laws path between others zero items counter s es next reliable quiet h
      some_items log fit room =
    absurd (omega arith)
enqueue_batch_appends {S} {o} laws path between others (suc fuel) items counter s es next reliable
      quiet h some_items log fit room =
    let (bytes, version, prepared) =
      prepare_answers laws path between others items s es next reliable log fit room in
    let p =
      prepare_lem laws path between items s bytes version es next prepared log fit (omega arith) in
    let t = between 0 (prepare o path between items s).0 in
    let put = o.put_if_match path bytes version t in
    elim (reliable.put_answers path bytes version t) [
      | inl wrote ↦
          let (token, w, now, same) =
            laws.cas_ok path bytes version t put.0 (λ i. (put.0, wrote i)) in
          (
            _,
            enqueue_batch_lem laws path between (suc fuel) items counter s some_items
                ∙ round_finished o path between items fuel 0 counter s bytes version (ok tt)
                    prepared (ap after_put wrote ∙ after_put-ok),
            refl,
            subst (λ v. LogAt v (es ++ numbered next items) (u64 (next + length items)))
                (ap (λ b. some (record { bytes = b; version = w.version })) (sym same) ∙ sym now)
                (p.extends w.version),
          )
      | inr refused ↦ absurd (
          accepted laws path between s t bytes version p.token
            (quiet 0 (omega arith) (prepare o path between items s).0 ∙ p.unchanged)
            (ap after_put refused ∙ after_put-refused))
    ]
