-- ===== src/Committer/Accounts.antt =====
-- buffer/producer.go: what becomes of the batches in the map `ready` of `drain`.
use opendata_go.Base.{
  append_assoc, append-nil, length, List, zero, true, producer_halted, ◌∙◌, ◌∷◌, suc, inr, inl, ◌⊎◌,
  arith, ◌<◌, refl, some, ℕ, [], ap, Error, ◌++◌, Option, ◌≡◌,
}
use mathlib.Core.List.{Perm}
use mathlib.Core.List.Perm
use opendata_go.Enqueuer.{EnqueueItem}
use opendata_go.Committer.{
  abandoned, manifest_failure, halt, go_on, AfterCas, after_cas, UploadCompletion, ResolverItem,
  BatchOutcome, Ready, Group, take_group, resolve_all, resolve_failed, Committer, Drained,
  cas_group, drain, after_resolving,
}
use opendata_go.Committer.Ready.{held, take_group-Perm, length-take_group}

pub AfterCas-cases :
    (v : AfterCas) → ((e : Option Error) × (o : BatchOutcome) × (v ≡ go_on e o)) ⊎ (v ≡ halt)
AfterCas-cases (go_on e o) = inl (e, o, refl)
AfterCas-cases halt = inr refl

pub List-cases :
    (l : List UploadCompletion)
    → (l ≡ []) ⊎ ((x : UploadCompletion) × (xs : List UploadCompletion) × (l ≡ x ∷ xs))
List-cases [] = inl refl
List-cases (x ∷ xs) = inr (x, xs, refl)

-- The batches that were resolved.
unfoldable pub completions : List ResolverItem → List UploadCompletion
completions [] = []
completions (r ∷ rs) = r.completion ∷ completions rs

pub completions-append :
    (xs ys : List ResolverItem) → completions (xs ++ ys) ≡ completions xs ++ completions ys
unfolding completions
completions-append [] ys = refl
completions-append (x ∷ xs) ys = ap (λ l. x.completion ∷ l) (completions-append xs ys)

pub completions-resolve_all :
    (e : Option Error) (o : BatchOutcome) (ucs : List UploadCompletion)
    → completions (resolve_all e o ucs) ≡ ucs
unfolding completions resolve_all
completions-resolve_all e o [] = refl
completions-resolve_all e o (uc ∷ ucs) = ap (λ l. uc ∷ l) (completions-resolve_all e o ucs)

completions-resolve_failed : (ucs : List UploadCompletion) → completions (resolve_failed ucs) ≡ ucs
unfolding completions resolve_failed
completions-resolve_failed [] = refl
completions-resolve_failed (uc ∷ ucs) = ap (λ l. uc ∷ l) (completions-resolve_failed ucs)

-- The batches of a group, resolved.
completions-group :
    (e : Option Error) (o : BatchOutcome) (g f : List UploadCompletion)
    → completions (resolve_all e o g ++ resolve_failed f) ≡ g ++ f
completions-group e o g f = rw (
  completions-append (resolve_all e o g) (resolve_failed f),
  completions-resolve_all e o g,
  completions-resolve_failed f,
)

completions-halt :
    (e : Option Error) (o o' : BatchOutcome) (g f r : List UploadCompletion)
    → completions (resolve_all e o g ++ (resolve_failed f ++ resolve_all e o' r)) ≡ g ++ (f ++ r)
completions-halt e o o' g f r = rw (
  completions-append (resolve_all e o g) (resolve_failed f ++ resolve_all e o' r),
  completions-resolve_all e o g,
  completions-append (resolve_failed f) (resolve_all e o' r),
  completions-resolve_failed f,
  completions-resolve_all e o' r,
)

pub nothing_resolved : (ready : List UploadCompletion) → Perm (completions [] ++ ready) ready
unfolding completions
nothing_resolved ready = Perm.rfl

-- The batches that `d` accounts for.
abbrev pub accounted : {S : Type 0} → Drained S → List UploadCompletion
accounted d = completions d.resolved ++ d.committer.ready

module _ {S : Type 0} (cas : List EnqueueItem → S → S × Option Error) (batch_size : ℕ) where
  pub drain_nothing :
      (fuel : ℕ) (c : Committer) (s : S)
      → (take_group batch_size c.next c.ready).group
          ++ (take_group batch_size c.next c.ready).failed
        ≡ []
      → drain cas batch_size (suc fuel) c s
        ≡ some (record { committer = c; state = s; resolved = [] })
  unfolding drain
  drain_nothing fuel c s e = rw (e, drain)

  pub drain_goes_on :
      (fuel : ℕ) (c : Committer) (s : S) (uc : UploadCompletion) (ucs : List UploadCompletion)
      (e : Option Error) (o : BatchOutcome)
      → (take_group batch_size c.next c.ready).group
          ++ (take_group batch_size c.next c.ready).failed
        ≡ uc ∷ ucs
      → after_cas (cas_group cas batch_size (take_group batch_size c.next c.ready).group s).1
        ≡ go_on e o
      → drain cas batch_size (suc fuel) c s
        ≡ after_resolving
            (resolve_all e o (take_group batch_size c.next c.ready).group
              ++ resolve_failed (take_group batch_size c.next c.ready).failed)
            (drain cas batch_size fuel
              (record c {
                next = (take_group batch_size c.next c.ready).next;
                ready = (take_group batch_size c.next c.ready).ready;
              })
              (cas_group cas batch_size (take_group batch_size c.next c.ready).group s).0)
  unfolding drain
  drain_goes_on fuel c s uc ucs e o taken after = rw (taken, after, drain)

  pub drain_halts :
      (fuel : ℕ) (c : Committer) (s : S) (uc : UploadCompletion) (ucs : List UploadCompletion)
      → (take_group batch_size c.next c.ready).group
          ++ (take_group batch_size c.next c.ready).failed
        ≡ uc ∷ ucs
      → after_cas (cas_group cas batch_size (take_group batch_size c.next c.ready).group s).1 ≡ halt
      → drain cas batch_size (suc fuel) c s
        ≡ some (record {
          committer = record {
            next = (take_group batch_size c.next c.ready).next;
            ready = [];
            halted = true;
          };
          state = (cas_group cas batch_size (take_group batch_size c.next c.ready).group s).0;
          resolved =
              resolve_all
                (some producer_halted)
                manifest_failure
                (take_group batch_size c.next c.ready).group
              ++ (resolve_failed (take_group batch_size c.next c.ready).failed
                  ++ resolve_all
                      (some producer_halted)
                      abandoned
                      (take_group batch_size c.next c.ready).ready);
        })
  unfolding drain
  drain_halts fuel c s uc ucs taken after = rw (taken, after, drain)

  -- `drain` ends, and it accounts for each batch of the map.
  Accounts : ℕ → Committer → S → Type 0
  Accounts fuel c s =
      (d : Drained S) × (drain cas batch_size fuel c s ≡ some d) × Perm (accounted d) c.ready

  accounts_later :
      (out : List ResolverItem) (g : Group) (x : Option (Drained S)) (ready : Ready)
      → completions out ≡ g.group ++ g.failed
      → Perm (held g) ready
      → (d : Drained S) × (x ≡ some d) × Perm (accounted d) g.ready
      → (d : Drained S) × (after_resolving out x ≡ some d) × Perm (accounted d) ready
  accounts_later out g x ready e p (d, is_d, q) = (
    record d { resolved = out ++ d.resolved },
    rw is_d,
    rw
        (
          completions-append out d.resolved,
          e,
          append_assoc (g.group ++ g.failed) (completions d.resolved) d.committer.ready,
          append_assoc g.group g.failed (completions d.resolved ++ d.committer.ready),
        )
        (Perm.trans (Perm.append_left g.group (Perm.append_left g.failed q)) p),
  )

  -- With one more fuel than there are batches in the map, `drain` ends; and every batch that was in
  -- the map is then resolved exactly once, or is still there, whatever the manifest's writes return.
  pub drain_accounts :
      (fuel : ℕ) (c : Committer) (s : S)
      → length c.ready < fuel
      → (d : Drained S) × (drain cas batch_size fuel c s ≡ some d) × Perm (accounted d) c.ready
  drain_accounts zero c s h = absurd (omega arith)
  drain_accounts (suc fuel) c s h =
      let g = take_group batch_size c.next c.ready in
      elim (List-cases (g.group ++ g.failed)) [
        | inl nothing ↦ (_, drain_nothing fuel c s nothing, nothing_resolved c.ready)
        | inr (uc, ucs, taken) ↦
            elim (AfterCas-cases (after_cas (cas_group cas batch_size g.group s).1)) [
              | inl (e, o, after) ↦
                  let later = record c { next = g.next; ready = g.ready } in
                  let s' = (cas_group cas batch_size g.group s).0 in
                  let fewer : length g.ready < fuel =
                    omega (arith, length-take_group batch_size c.next c.ready, ap length taken) in
                  let (d, is_d, p) =
                    accounts_later (resolve_all e o g.group ++ resolve_failed g.failed) g
                      (drain cas batch_size fuel later s') c.ready
                      (completions-group e o g.group g.failed)
                      (take_group-Perm batch_size c.next c.ready)
                      (drain_accounts fuel later s' fewer) in
                  (d, drain_goes_on fuel c s uc ucs e o taken after ∙ is_d, p)
              | inr after ↦ (
                _,
                drain_halts fuel c s uc ucs taken after,
                rw
                    (
                      completions-halt (some producer_halted) manifest_failure abandoned g.group
                          g.failed g.ready,
                      append-nil (held g),
                    )
                    (take_group-Perm batch_size c.next c.ready),
              )
            ]
      ]
