-- ===== src/Enqueuer/Keeps.antt =====
-- buffer/manifest.go: what a call of `enqueueBatch` leaves in the manifest, also where it fails.
use opendata_go.Base.{
  ap, arith, refl, Error, ◌∷◌, sym, subst, ◌∙◌, ok, err, panic, some, inl, inr, ◌⊎◌, ◌≡◌, ◌+◌, ◌++◌,
  ◌<◌, ◌^◌, [], Outcome-cases, Outcome, Option, List, All, ℕ, zero, suc, length, append_assoc,
  append-nil,
}
use mathlib.Core.Option.{some-injective}
use opendata_go.Bytes.{Bytes, u64}
use opendata_go.Manifest.{QueueEntry}
use opendata_go.Store.{Version, GetResult, ObjectStore, CasLaws, version_of}
use opendata_go.Enqueuer.{
  EnqueueItem, EnqueueResult, ConflictCounter, record_write, record_conflict, after_put, finish,
  prepare, enqueue_loop, enqueue_batch, read_manifest,
}
use opendata_go.Enqueuer.Log.{numbered, LogAt, IsItem}
use opendata_go.Enqueuer.Read.{prepare_lem}
use opendata_go.Enqueuer.Rounds.{round_finished, round_again, round_failed, round_crashed}
use opendata_go.Enqueuer.Terminates.{Reliable}
use opendata_go.Enqueuer.Commit.{verdict_again, verdict_ok, Verdict-cases, enqueue_batch_lem}

-- A store whose failures are those of a network: a read changes nothing, whatever it returns, and a
-- conditional write, whatever it returns, has changed nothing or has replaced just the version that it
-- named by its bytes.
pub record FailSafe {S : Type 0} {o : ObjectStore S} (laws : CasLaws o) : Type 0 where
  pub get_keeps : (p : Bytes) (s : S) → laws.view (o.get p s).0 p ≡ laws.view s p
  pub put_stores_or_not :
      (p b : Bytes) (v : Option Version) (s : S)
      → (laws.view (o.put_if_match p b v s).0 p ≡ laws.view s p)
        ⊎ (version_of (laws.view s p) ≡ v)
          × (r : GetResult) × (laws.view (o.put_if_match p b v s).0 p ≡ some r)
          × (r.bytes ≡ b)

-- Such a store is one that answers every call with a result, or one of the errors that the interface
-- names.
pub Reliable-FailSafe :
    {S : Type 0} {o : ObjectStore S} (laws : CasLaws o) → Reliable o → FailSafe laws
Reliable-FailSafe {S} {o} laws reliable = record {
  get_keeps = λ p s. elim (reliable.get_answers p s) [
    | inl (r, found) ↦ (laws.get_found p s (o.get p s).0 r (λ i. ((o.get p s).0, found i))).1 p
    | inr missing ↦ (laws.get_missing p s (o.get p s).0 (λ i. ((o.get p s).0, missing i))).1 p
  ];
  put_stores_or_not = λ p b v s.
      let t = (o.put_if_match p b v s).0 in
      elim (reliable.put_answers p b v s) [
        | inl wrote ↦ inr (laws.cas_ok p b v s t (λ i. (t, wrote i)))
        | inr refused ↦ inl ((laws.cas_conflict p b v s t (λ i. (t, refused i))).1 p)
      ];
}

-- The path holds a valid manifest of the entries `es`.
abbrev pub Holds :
    {S : Type 0} {o : ObjectStore S} → CasLaws o → Bytes → S → List QueueEntry → Type 0
Holds laws path s es = (next : ℕ) × LogAt (laws.view s path) es next

module _ {S : Type 0} {o : ObjectStore S} (laws : CasLaws o) (path : Bytes)
    (between : ℕ → S → S) where
  -- Others only add entries to the manifest.
  abbrev pub OthersAdd : Type 0
  OthersAdd =
      (k : ℕ) (s : S) (es : List QueueEntry)
      → Holds laws path s es
      → (more : List QueueEntry) × Holds laws path (between k s) (es ++ more)

  -- More entries than before; those of the items among them if the outcome is no error.
  abbrev pub Grown : List EnqueueItem → List QueueEntry → S → Outcome (Unit {0}) → Type 0
  Grown items es s outcome =
      (more : List QueueEntry) × Holds laws path s (es ++ more)
      × (outcome ≡ ok tt
          → (others : List QueueEntry) × (n : ℕ) × (more ≡ others ++ numbered n items))

  module _ (adds : OthersAdd) (safe : FailSafe laws) where
    unwritten :
        (items : List EnqueueItem) (es : List QueueEntry) (s s' : S) (outcome : Outcome (Unit {0}))
        → laws.view s' path ≡ laws.view s path
        → Holds laws path s es
        → (outcome ≡ ok tt → ⊥)
        → Grown items es s' outcome
    unwritten items es s s' outcome same (next, log) bad = (
      [],
      (
        next,
        subst (λ x. LogAt x (es ++ []) next) (sym same)
            (subst (λ l. LogAt (laws.view s path) l next) (sym (append-nil es)) log),
      ),
      λ fine. absurd (bad fine),
    )

    -- The write was stored, on the version that was read.
    stored :
        (items : List EnqueueItem) (es : List QueueEntry) (k : ℕ) (s : S) (bytes : Bytes)
        (version : Option Version) (next : ℕ) (outcome : Outcome (Unit {0})) (s' : S)
        (r : GetResult)
        → (prepare o path between items s).1 ≡ ok (bytes, version)
        → LogAt (laws.view s path) es next
        → All IsItem items
        → length items < 2 ^ 63
        → laws.view s' path ≡ some r
        → r.bytes ≡ bytes
        → Grown items es s' outcome
    stored items es k s bytes version next outcome s' r prepared log fit few now same =
        let p = prepare_lem laws path between items s bytes version es next prepared log fit few in
        (
          numbered next items,
          (
            u64 (next + length items),
            subst (λ v. LogAt v (es ++ numbered next items) (u64 (next + length items)))
                (ap (λ b. some (record { bytes = b; version = r.version })) (sym same) ∙ sym now)
                (p.extends r.version),
          ),
          λ fine. ([], next, refl),
        )

    Grown-after :
        (items : List EnqueueItem) (es more : List QueueEntry) (s : S)
        (outcome : Outcome (Unit {0}))
        → Grown items (es ++ more) s outcome
        → Grown items es s outcome
    Grown-after items es more s outcome (rest, (next, log), wrote) = (
      more ++ rest,
      (next, subst (λ l. LogAt (laws.view s path) l next) (append_assoc es more rest) log),
      λ fine.
          let (before, n, e) = wrote fine in
          (
            more ++ before,
            n,
            ap (λ l. more ++ l) e ∙ sym (append_assoc more before (numbered n items)),
          ),
    )

    -- A last round that came to its write, whose result was `x`.
    wrote-Grown :
        (items : List EnqueueItem) (es more : List QueueEntry) (k : ℕ) (s : S) (bytes : Bytes)
        (version : Option Version) (next : ℕ) (x : Outcome (Unit {0}))
        → (prepare o path between items s).1 ≡ ok (bytes, version)
        → LogAt (laws.view s path) es next
        → Holds laws path (between k (prepare o path between items s).0) (es ++ more)
        → All IsItem items
        → length items < 2 ^ 63
        → after_put
            (o.put_if_match path bytes version (between k (prepare o path between items s).0)).1
          ≡ finish x
        → Grown items es
            (o.put_if_match path bytes version (between k (prepare o path between items s).0)).0
            x
    wrote-Grown items es more k s bytes version next x prepared log (next', held) fit few put =
        let t = between k (prepare o path between items s).0 in
        let after = o.put_if_match path bytes version t in
        elim (Outcome-cases x) [
          | inl (u, fine) ↦
              let worked = verdict_ok after.1 (put ∙ ap finish fine) in
              let (token, r, now, same) =
                laws.cas_ok path bytes version t after.0 (λ i. (after.0, worked i)) in
              stored items es k s bytes version next x after.0 r prepared log fit few now same
          | inr bad ↦ elim (safe.put_stores_or_not path bytes version t) [
            | inl unchanged ↦ (
              more,
              (next', subst (λ v. LogAt v (es ++ more) next') (sym unchanged) held),
              λ fine. absurd (not_ok x bad fine),
            )
            | inr (token, r, now, same) ↦
                stored items es k s bytes version next x after.0 r prepared log fit few now same
          ]
        ]
      where
        not_ok :
            (y : Outcome (Unit {0})) → ((e : Error) × (y ≡ err e)) ⊎ (y ≡ panic) → y ≡ ok tt → ⊥
        not_ok y (inl (e, h)) fine = absurd (cc (h, fine))
        not_ok y (inr h) fine = absurd (cc (h, fine))

    prepare_keeps :
        (items : List EnqueueItem) (s : S)
        → laws.view (prepare o path between items s).0 path ≡ laws.view s path
    unfolding prepare read_manifest
    prepare_keeps items s = safe.get_keeps path s

    enqueue_loop-Grown :
        (fuel : ℕ) (items : List EnqueueItem) (es : List QueueEntry) (k : ℕ)
        (counter : ConflictCounter) (s : S) (r : EnqueueResult S)
        → Holds laws path s es
        → All IsItem items
        → length items < 2 ^ 63
        → enqueue_loop o path between fuel items k counter s ≡ some r
        → Grown items es r.state r.outcome
    enqueue_loop-Grown zero items es k counter s r log fit few e =
        unfold enqueue_loop in absurd (cc e)
    enqueue_loop-Grown (suc fuel) items es k counter s r (next, log) fit few e =
        let s1 = (prepare o path between items s).0 in
        let same = prepare_keeps items s in
        let (more, held) = adds k s1 es (next, subst (λ v. LogAt v es next) (sym same) log) in
        elim (Outcome-cases (prepare o path between items s).1) [
          | inl ((bytes, version), prepared) ↦
              let after = o.put_if_match path bytes version (between k s1) in
              elim (Verdict-cases (after_put after.1)) [
                | inl refused ↦
                    let (_, unchanged) =
                      laws.cas_conflict path bytes version (between k s1) after.0
                        (λ i. (after.0, verdict_again after.1 refused i)) in
                    let (next', log') = held in
                    Grown-after items es more r.state r.outcome (
                      enqueue_loop-Grown fuel items (es ++ more) (k + 1)
                        (record_conflict (record_write counter)) after.0 r
                        (next', subst (λ v. LogAt v (es ++ more) next') (sym (unchanged path)) log')
                        fit few
                        (sym (
                            round_again o path between items fuel k counter s bytes version prepared
                              refused)
                          ∙ e))
                | inr (x, put) ↦
                    subst (λ (q : EnqueueResult S). Grown items es q.state q.outcome)
                      (some-injective _ _ (
                        sym (
                          round_finished o path between items fuel k counter s bytes version x
                            prepared put)
                        ∙ e))
                      (wrote-Grown items es more k s bytes version next x prepared log held fit few
                        put)
              ]
          | inr (inl (x, is_err)) ↦
              subst (λ (q : EnqueueResult S). Grown items es q.state q.outcome)
                (some-injective _ _
                  (sym (round_failed o path between items fuel k counter s x is_err) ∙ e))
                (unwritten items es s s1 (err x) same (next, log) (λ h. cc h))
          | inr (inr is_panic) ↦
              subst (λ (q : EnqueueResult S). Grown items es q.state q.outcome)
                (some-injective _ _
                  (sym (round_crashed o path between items fuel k counter s is_panic) ∙ e))
                (unwritten items es s s1 panic same (next, log) (λ h. cc h))
        ]

    -- A call of `enqueueBatch` removes no entry, also where it fails; without an error the manifest
    -- has grown by the batch's entries, numbered on, behind those that others wrote.
    pub enqueue_batch-Grown :
        (fuel : ℕ) (items : List EnqueueItem) (es : List QueueEntry) (counter : ConflictCounter)
        (s : S) (r : EnqueueResult S)
        → Holds laws path s es
        → All IsItem items
        → length items < 2 ^ 63
        → enqueue_batch o path between fuel items counter s ≡ some r
        → Grown items es r.state r.outcome
    unfolding enqueue_batch numbered
    enqueue_batch-Grown fuel [] es counter s r (next, log) fit few e =
        subst (λ (q : EnqueueResult S). Grown [] es q.state q.outcome) (some-injective _ _ e)
          (
            [],
            (next, subst (λ l. LogAt (laws.view s path) l next) (sym (append-nil es)) log),
            λ fine. ([], 0, refl),
          )
    enqueue_batch-Grown fuel (item ∷ items) es counter s r log fit few e =
        enqueue_loop-Grown fuel (item ∷ items) es 0 counter s r log fit few (
          sym (enqueue_batch_lem laws path between fuel (item ∷ items) counter s (omega arith)) ∙ e)
