-- ===== src/Enqueuer/Commit.antt =====
-- buffer/manifest.go: what a write of `enqueueBatch` means for the manifest object.
use opendata_go.Base.{
  false, ◌==◌, ◌⊎◌, precondition_failed, Option-cases, Outcome-cases, inr, inl, zero, suc, ◌∙◌, sym,
  subst, panic, err, ap, arith, ◌+◌, refl, length, All, ◌++◌, ◌^◌, ◌<◌, ◌≡◌, Outcome, ok, Option,
  some, ℕ, List,
}
use mathlib.Core.Option.{some-injective}
use opendata_go.Bytes.{Bytes, u64}
use opendata_go.Manifest.{QueueEntry}
use opendata_go.Store.{Version, ObjectStore, CasLaws, version_of}
use opendata_go.Enqueuer.{
  record_write, Verdict, record_conflict, EnqueueItem, after_put, again, finish, EnqueueResult,
  ConflictCounter, prepare, enqueue_loop, enqueue_batch,
}
use opendata_go.Enqueuer.Log.{numbered, LogAt, IsItem}
use opendata_go.Enqueuer.Read.{version_of-none, version_of-some, Valid, prepare_lem}
use opendata_go.Enqueuer.Rounds.{round_finished, round_again, round_failed, round_crashed}

-- How a verdict came about.
pub verdict_ok : (x : Outcome (Unit {0})) → after_put x ≡ finish (ok tt) → x ≡ ok tt
unfolding after_put
verdict_ok (ok u) h = refl
verdict_ok (err precondition_failed) h = absurd (cc h)
verdict_ok (err x) h = absurd (cc h)
verdict_ok panic h = absurd (cc h)

pub verdict_again : (x : Outcome (Unit {0})) → after_put x ≡ again → x ≡ err precondition_failed
unfolding after_put
verdict_again (ok u) h = absurd (cc h)
verdict_again (err precondition_failed) h = refl
verdict_again (err x) h = absurd (cc h)
verdict_again panic h = absurd (cc h)

pub after_put-ok : after_put (ok tt) ≡ finish (ok tt)
unfolding after_put
after_put-ok = refl

pub after_put-refused : after_put (err precondition_failed) ≡ again
unfolding after_put
after_put-refused = refl

pub Verdict-cases : (v : Verdict) → (v ≡ again) ⊎ (x : Outcome (Unit {0})) × (v ≡ finish x)
Verdict-cases again = inl refl
Verdict-cases (finish x) = inr (x, refl)

module _ {S : Type 0} {o : ObjectStore S} (laws : CasLaws o) (path : Bytes)
    (between : ℕ → S → S) where
  pub enqueue_batch_lem :
      (fuel : ℕ) (items : List EnqueueItem) (counter : ConflictCounter) (s : S)
      → 0 < length items
      → enqueue_batch o path between fuel items counter s
        ≡ enqueue_loop o path between fuel items 0 counter s
  unfolding enqueue_batch
  enqueue_batch_lem fuel items counter s h =
      let no : (length items == 0) ≡ false = ground arith in rw no

  -- What others do in between: they write, and leave a valid manifest valid.
  pub record Neighbours : Type 0 where
    pub write : (k : ℕ) (s : S) → laws.Others s (between k s)
    pub keep : (k : ℕ) (s : S) → Valid (laws.view s path) → Valid (laws.view (between k s) path)

  -- The batch stands in the manifest, in order and numbered on, behind the entries that the
  -- manifest held just before the write.
  pub record Committed (items : List EnqueueItem) (r : EnqueueResult S) : Type 0 where
    pub before : S
    pub es : List QueueEntry
    pub next : ℕ
    pub was : LogAt (laws.view (between r.conflicts before) path) es next
    pub now : LogAt (laws.view r.state path) (es ++ numbered next items) (u64 (next + length items))

  module _ (others : Neighbours) where
    -- The write lands only on the object that was read.
    unmoved :
        (k : ℕ) (s s' : S) (version : Option Version) (es : List QueueEntry) (next : ℕ)
        → LogAt (laws.view s path) es next
        → version_of (laws.view s path) ≡ version
        → laws.view s' path ≡ laws.view s path
        → version_of (laws.view (between k s') path) ≡ version
        → LogAt (laws.view (between k s') path) es next
    unmoved k s s' version es next log token same token' = elim (Option-cases (laws.view s path)) [
      | inl absent ↦
          let gone =
            version_of-none (laws.view (between k s') path)
              (token' ∙ sym token ∙ ap version_of absent) in
          subst (λ x. LogAt x es next) (absent ∙ sym gone) log
      | inr (r, found) ↦
          let (r', found', etag) =
            version_of-some (laws.view (between k s') path) r.version
              (token' ∙ sym token ∙ ap version_of found) in
          let bytes =
            laws.pinned path s' (between k s') r r' (others.write k s') (same ∙ found) found'
              (sym etag) in
          let (epoch, he, hn, few, fit, was) = subst (λ x. LogAt x es next) found log in
          subst (λ x. LogAt x es next) (sym found') (epoch, he, hn, few, fit, sym bytes ∙ was)
    ]

    enqueue_loop_commits :
        (fuel : ℕ) (items : List EnqueueItem) (conflicts : ℕ) (counter : ConflictCounter) (s : S)
        {r : EnqueueResult S}
        → enqueue_loop o path between fuel items conflicts counter s ≡ some r
        → r.outcome ≡ ok tt
        → Valid (laws.view s path)
        → All IsItem items
        → length items < 2 ^ 63
        → Committed items r
    enqueue_loop_commits zero items conflicts counter s e done valid fit few =
        unfold enqueue_loop in absurd (cc e)
    enqueue_loop_commits (suc fuel) items conflicts counter s {r} e done (es, next, log) fit few =
        elim (Outcome-cases (prepare o path between items s).1) [
          | inl ((bytes, version), prepared) ↦
              let s1 = (prepare o path between items s).0 in
              let p =
                prepare_lem laws path between items s bytes version es next prepared log fit few in
              let t = between conflicts s1 in
              let after = o.put_if_match path bytes version t in
              elim (Verdict-cases (after_put after.1)) [
                | inl refused ↦
                    let (_, same) =
                      laws.cas_conflict path bytes version t after.0
                        (λ i. (after.0, verdict_again after.1 refused i)) in
                    let kept =
                      others.keep conflicts s1
                        (es, next, subst (λ x. LogAt x es next) (sym p.unchanged) log) in
                    enqueue_loop_commits fuel items (conflicts + 1)
                      (record_conflict (record_write counter)) after.0
                      (sym (
                          round_again o path between items fuel conflicts counter s bytes version
                            prepared refused)
                        ∙ e)
                      done (subst Valid (sym (same path)) kept) fit few
                | inr (x, put) ↦
                    let is_r = some-injective _ _ (
                      sym (
                        round_finished o path between items fuel conflicts counter s bytes version x
                          prepared put)
                      ∙ e) in
                    let x_ok : x ≡ ok tt = ap (λ (q : EnqueueResult S). q.outcome) is_r ∙ done in
                    let wrote = verdict_ok after.1 (put ∙ ap finish x_ok) in
                    let (token, w, now, same) =
                      laws.cas_ok path bytes version t after.0 (λ i. (after.0, wrote i)) in
                    subst (Committed items) is_r (record {
                      before = s1;
                      es = es;
                      next = next;
                      was = unmoved conflicts s s1 version es next log p.token p.unchanged token;
                      now =
                          subst
                            (λ v. LogAt v (es ++ numbered next items) (u64 (next + length items)))
                            (ap (λ b. some (record { bytes = b; version = w.version })) (sym same)
                              ∙ sym now)
                            (p.extends w.version);
                    })
              ]
          | inr (inl (x, failed)) ↦
              let is_r =
                some-injective _ _
                  (sym (round_failed o path between items fuel conflicts counter s x failed) ∙ e) in
              let bad : err x ≡ ok tt = ap (λ (q : EnqueueResult S). q.outcome) is_r ∙ done in
              absurd (cc bad)
          | inr (inr crashed) ↦
              let is_r =
                some-injective _ _
                  (sym (round_crashed o path between items fuel conflicts counter s crashed) ∙ e) in
              let bad : panic ≡ ok tt = ap (λ (q : EnqueueResult S). q.outcome) is_r ∙ done in
              absurd (cc bad)
        ]

    -- Once `enqueueBatch` reports that a batch is written, the batch stands in the manifest object,
    -- whole, in order and numbered on from the manifest's next sequence, behind exactly the entries
    -- that the manifest held just before the write, whatever other clients wrote in between.
    -- The manifest is valid at the start, the others keep it valid, the format can hold each item, and
    -- there is at least one of them, but fewer than 2 ^ 63.
    pub enqueue_batch_commits :
        (fuel : ℕ) (items : List EnqueueItem) (counter : ConflictCounter) (s : S)
        {r : EnqueueResult S}
        → enqueue_batch o path between fuel items counter s ≡ some r
        → r.outcome ≡ ok tt
        → 0 < length items
        → Valid (laws.view s path)
        → All IsItem items
        → length items < 2 ^ 63
        → Committed items r
    enqueue_batch_commits fuel items counter s e done some_items valid fit few =
        enqueue_loop_commits fuel items 0 counter s
          (sym (enqueue_batch_lem fuel items counter s some_items) ∙ e) done valid fit few
