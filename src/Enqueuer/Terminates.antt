-- ===== src/Enqueuer/Terminates.antt =====
-- buffer/manifest.go: when the loop of `enqueueBatch` ends.
use opendata_go.Base.{
  ltb→lt, ltb, Bool-cases, ◌⊎◌, ◌≡◌, ◌≢◌, ◌≤◌, ◌<◌, ◌+◌, ◌∙◌, ◌>>=◌, ◌^◌, length, arith, sym, ap,
  subst, refl, ok, err, some, none, inl, inr, not_found, precondition_failed, Option, List, ℕ,
  Outcome-cases, zero, suc, All,
}
use opendata_go.Bytes.{Bytes}
use opendata_go.Manifest.{QueueEntry, Manifest}
use opendata_go.Manifest.Encode.{empty_manifest}
use opendata_go.Store.{Version, GetResult, ObjectStore, CasLaws, version_of}
use opendata_go.Enqueuer.{
  EnqueueItem, append_all, manifest_of, after_put, again, EnqueueResult, ConflictCounter,
  record_write, record_conflict, read_manifest, prepare, enqueue_loop, enqueue_batch,
}
use opendata_go.Enqueuer.Log.{LogAt, IsItem}
use opendata_go.Enqueuer.Read.{
  Valid, read_manifest_lem, prepare_lem, manifest_of_found, manifest_of-missing, write_of_lem,
  write_of,
}
use opendata_go.Enqueuer.Rounds.{round_finished, round_again, round_failed, round_crashed}
use opendata_go.Enqueuer.Commit.{
  verdict_again, Verdict-cases, after_put-ok, after_put-refused, enqueue_batch_lem,
  enqueue_batch_commits, Neighbours, Committed,
}

-- A store whose calls return a result, or one of the errors that the interface names.
pub record Reliable {S : Type 0} (o : ObjectStore S) : Type 0 where
  pub get_answers :
      (p : Bytes) (s : S)
      → ((r : GetResult) × ((o.get p s).1 ≡ ok r)) ⊎ ((o.get p s).1 ≡ err not_found)
  pub put_answers :
      (p b : Bytes) (v : Option Version) (s : S)
      → ((o.put_if_match p b v s).1 ≡ ok tt)
        ⊎ ((o.put_if_match p b v s).1 ≡ err precondition_failed)

module _ {S : Type 0} {o : ObjectStore S} (laws : CasLaws o) (path : Bytes)
    (between : ℕ → S → S) where
  -- From round `n` on nobody else writes to the path.
  abbrev pub QuietFrom : ℕ → Type 0
  QuietFrom n = (k : ℕ) → n ≤ k → (s : S) → laws.view (between k s) path ≡ laws.view s path

  -- A write on the version that was read is not refused when nobody wrote in between.
  pub accepted :
      (s t : S) (bytes : Bytes) (version : Option Version)
      → version_of (laws.view s path) ≡ version
      → laws.view t path ≡ laws.view s path
      → after_put (o.put_if_match path bytes version t).1 ≢ again
  accepted s t bytes version token same refused =
      let put = o.put_if_match path bytes version t in
      let (differs, _) =
        laws.cas_conflict path bytes version t put.0
          (λ i. (put.0, verdict_again put.1 refused i)) in
      differs (ap version_of same ∙ token)

  module _ (others : Neighbours laws path between) where
    enqueue_loop_returns :
        (n fuel : ℕ) (items : List EnqueueItem) (conflicts : ℕ) (counter : ConflictCounter) (s : S)
        → QuietFrom n
        → conflicts ≤ n
        → n < conflicts + fuel
        → Valid (laws.view s path)
        → All IsItem items
        → length items < 2 ^ 63
        → (r : EnqueueResult S) × (enqueue_loop o path between fuel items conflicts counter s
            ≡ some r)
          × (r.conflicts ≤ n)
    enqueue_loop_returns n zero items conflicts counter s quiet h enough valid fit few =
        absurd (omega arith)
    enqueue_loop_returns n (suc fuel) items conflicts counter s quiet h enough (es, next, log) fit
          few =
        elim (Outcome-cases (prepare o path between items s).1) [
          | inl ((bytes, version), prepared) ↦
              let s1 = (prepare o path between items s).0 in
              let p =
                prepare_lem laws path between items s bytes version es next prepared log fit few in
              let t = between conflicts s1 in
              let put = o.put_if_match path bytes version t in
              elim (Verdict-cases (after_put put.1)) [
                | inl refused ↦
                    let (_, same) =
                      laws.cas_conflict path bytes version t put.0
                        (λ i. (put.0, verdict_again put.1 refused i)) in
                    let kept =
                      others.keep conflicts s1
                        (es, next, subst (λ x. LogAt x es next) (sym p.unchanged) log) in
                    let later : conflicts < n = elim (Bool-cases (ltb conflicts n)) [
                      | inl l ↦ ltb→lt conflicts n l
                      | inr g ↦
                          let past : n ≤ conflicts = ground arith in
                          absurd (
                            accepted s t bytes version p.token
                              (quiet conflicts past s1 ∙ p.unchanged) refused)
                    ] in
                    let (r, e, few_rounds) =
                      enqueue_loop_returns n fuel items (conflicts + 1)
                        (record_conflict (record_write counter)) put.0 quiet (omega arith)
                        (omega arith) (subst Valid (sym (same path)) kept) fit few in
                    (
                      r,
                      round_again o path between items fuel conflicts counter s bytes version
                            prepared refused
                          ∙ e,
                      few_rounds,
                    )
                | inr (x, finished) ↦ (
                  _,
                  round_finished o path between items fuel conflicts counter s bytes version x
                      prepared finished,
                  h,
                )
              ]
          | inr (inl (x, failed)) ↦
              (_, round_failed o path between items fuel conflicts counter s x failed, h)
          | inr (inr crashed) ↦
              (_, round_crashed o path between items fuel conflicts counter s crashed, h)
        ]

    -- `enqueueBatch` returns after at most `n` conflicts when from round `n` on no other client
    -- writes to the manifest between its read and its write: it spins only while others write.
    pub enqueue_batch_returns :
        (n fuel : ℕ) (items : List EnqueueItem) (counter : ConflictCounter) (s : S)
        → QuietFrom n
        → n < fuel
        → 0 < length items
        → Valid (laws.view s path)
        → All IsItem items
        → length items < 2 ^ 63
        → (r : EnqueueResult S) × (enqueue_batch o path between fuel items counter s ≡ some r)
          × (r.conflicts ≤ n)
    enqueue_batch_returns n fuel items counter s quiet enough some_items valid fit few =
        let (r, e, few_rounds) =
          enqueue_loop_returns n fuel items 0 counter s quiet (omega arith) (omega arith) valid fit
            few in
        (r, enqueue_batch_lem laws path between fuel items counter s some_items ∙ e, few_rounds)

    read_answers :
        (s : S) (es : List QueueEntry) (next : ℕ)
        → Reliable o
        → LogAt (laws.view s path) es next
        → (m : Manifest) × (v : Option Version) × ((read_manifest o path between s).1 ≡ ok (m, v))
    unfolding read_manifest
    read_answers s es next reliable log = elim (reliable.get_answers path s) [
      | inl (r, at_r) ↦
          let (found, _) =
            laws.get_found path s (o.get path s).0 r (λ i. ((o.get path s).0, at_r i)) in
          let (m, read, _, _) =
            manifest_of_found r es next (subst (λ x. LogAt x es next) found log) in
          (m, some r.version, ap manifest_of at_r ∙ read)
      | inr missing ↦ (empty_manifest, none, ap manifest_of missing ∙ sym manifest_of-missing)
    ]

    pub prepare_answers :
        (items : List EnqueueItem) (s : S) (es : List QueueEntry) (next : ℕ)
        → Reliable o
        → LogAt (laws.view s path) es next
        → All IsItem items
        → length es + length items < 2 ^ 32
        → (bytes : Bytes) × (v : Option Version) × ((prepare o path between items s).1
            ≡ ok (bytes, v))
    unfolding prepare write_of append_all
    prepare_answers items s es next reliable log fit room =
        let (m, v, read) = read_answers s es next reliable log in
        let found =
          read_manifest_lem laws path between s (read_manifest o path between s).0 m v es next
            (λ i. ((read_manifest o path between s).0, read i)) log in
        let (bytes, wrote, _) =
          write_of_lem m v items es found.stands_for (omega (arith, found.stands_for.next_is)) fit
            room in
        (
          bytes,
          v,
          ap (λ x. x >>= (λ (y : Manifest × Option Version). write_of y.0 y.1 items)) read ∙ wrote,
        )

    -- On a store that answers every call, and with no other writer, `enqueueBatch` of a batch that
    -- the manifest has room for succeeds in its first round, without a conflict, and the batch is
    -- committed.
    pub enqueue_batch_succeeds :
        (fuel : ℕ) (items : List EnqueueItem) (counter : ConflictCounter) (s : S)
        (es : List QueueEntry) (next : ℕ)
        → Reliable o
        → QuietFrom 0
        → 0 < fuel
        → 0 < length items
        → LogAt (laws.view s path) es next
        → All IsItem items
        → length es + length items < 2 ^ 32
        → (r : EnqueueResult S) × (enqueue_batch o path between fuel items counter s ≡ some r)
          × (r.outcome ≡ ok tt)
          × (r.conflicts ≡ 0)
          × Committed laws path between items r
    enqueue_batch_succeeds zero items counter s es next reliable quiet h some_items log fit room =
        absurd (omega arith)
    enqueue_batch_succeeds (suc fuel) items counter s es next reliable quiet h some_items log fit
          room =
        let (bytes, version, prepared) = prepare_answers items s es next reliable log fit room in
        let p =
          prepare_lem laws path between items s bytes version es next prepared log fit
            (omega arith) in
        let t = between 0 (prepare o path between items s).0 in
        elim (reliable.put_answers path bytes version t) [
          | inl put ↦
              let e =
                enqueue_batch_lem laws path between (suc fuel) items counter s some_items
                ∙ round_finished o path between items fuel 0 counter s bytes version (ok tt)
                    prepared (ap after_put put ∙ after_put-ok) in
              (
                _,
                e,
                refl,
                refl,
                enqueue_batch_commits laws path between others (suc fuel) items counter s e refl
                    some_items (es, next, log) fit (omega arith),
              )
          | inr refused ↦ absurd (
              accepted s t bytes version p.token
                (quiet 0 (omega arith) (prepare o path between items s).0 ∙ p.unchanged)
                (ap after_put refused ∙ after_put-refused))
        ]
