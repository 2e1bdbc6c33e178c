-- ===== src/Committer/Run/Durable.antt =====
-- buffer/producer.go: what a batch that `manifestCommitter` reports as durable has behind it, on a
-- manifest whose writes may fail.
use opendata_go.Base.{
  ◌≤◌, Option-cases, if_else, if_then, producer_halted, ap, arith, sym, ◌∙◌, refl, subst, Error,
  Option, none, some, Bool, List, [], ◌++◌, ◌≡◌, ℕ, ◌||◌, ◌<◌, suc, zero, Bool-cases, inl, inr, ◌∷◌,
  length,
}
use mathlib.Core.List.{append-nil, append_assoc}
use opendata_go.Enqueuer.{EnqueueItem}
use opendata_go.Committer.{
  AfterCas, halt, committed, manifest_failure, abandoned, go_on, UploadCompletion, ResolverItem,
  BatchOutcome, Committer, Drained, take_group, items_of, resolve_all, resolve_failed, cas_group,
  gathered, receive, drain, after_cas, after_resolving,
}
use opendata_go.Committer.Accounts.{
  List-cases, AfterCas-cases, drain_nothing, drain_goes_on, drain_halts,
}
use opendata_go.Committer.Fitting.{
  AllFit, gathered-AllFit, take_group-GroupFits, items_of-All, length-items_of,
}
use opendata_go.Committer.Ready.{length-take_group}
use opendata_go.Committer.Run.{Arrivals, new_committer, turns, closing, manifest_committer}
use opendata_go.Committer.Run.Arrival.{turns_go_on, manifest_committer_closes}
use opendata_go.Committer.Run.Reported.{
  Logs, Logs, AllDurable, AllDurable-append, AllUploaded, take_group-kinds, resolve_failed-durable,
  resolve_all-error, resolve_all-durable, Extends, Extends-trans, AllDurable-Extends, go_on-cases,
}

-- Each batch that arrives fits.
abbrev pub ArrivalsFit : (EnqueueItem → Type 0) → List Arrivals → Type 0
ArrivalsFit Fit [] = Unit {0}
ArrivalsFit Fit (x ∷ arrivals) = AllFit Fit (x.first ∷ x.more) × ArrivalsFit Fit arrivals

abbrev resolved_by_verdict : AfterCas → List UploadCompletion → List ResolverItem
resolved_by_verdict (go_on e o) ucs = resolve_all e o ucs
resolved_by_verdict halt ucs = []

module _ {S : Type 0} (cas : List EnqueueItem → S → S × Option Error) (batch_size : ℕ)
    (Log : S → List EnqueueItem → Type 0) (Fit : EnqueueItem → Type 0)
    (logs : Logs cas Log Fit batch_size) where
  -- What the write of a group comes to: a longer log, in which the batches reported are.
  abbrev GroupKept : List UploadCompletion → S → List EnqueueItem → Type 0
  GroupKept ucs s l =
      (l' : List EnqueueItem) × Log (cas_group cas batch_size ucs s).0 l'
      × Extends l l'
      × ((e : Option Error) (o : BatchOutcome)
          → after_cas (cas_group cas batch_size ucs s).1 ≡ go_on e o
          → AllDurable l' (resolve_all e o ucs))

  written-durable :
      (ucs : List UploadCompletion) (l' : List EnqueueItem) (x : Option Error)
      → AllUploaded ucs
      → (x ≡ none → AllDurable l' (resolve_all none committed ucs))
      → (e : Option Error) (o : BatchOutcome) → after_cas x ≡ go_on e o
      → AllDurable l' (resolve_all e o ucs)
  unfolding after_cas
  written-durable ucs l' none up there e o after =
      subst (λ (v : AfterCas). AllDurable l' (resolved_by_verdict v ucs)) after (there refl)
  written-durable ucs l' (some x) up there none o after = elim (go_on-cases (some x) none o after) [
    | inl (none_there, h) ↦ absurd (cc none_there)
    | inr (y, h) ↦ absurd (cc h)
  ]
  written-durable ucs l' (some x) up there (some y) o after = resolve_all-error l' y o ucs

  cas_group-kept :
      (ucs : List UploadCompletion) (s : S) (l : List EnqueueItem)
      → Log s l
      → AllFit Fit ucs
      → length ucs ≤ batch_size
      → AllUploaded ucs
      → GroupKept ucs s l
  unfolding cas_group resolve_all
  cas_group-kept [] s l here fit few up = (l, here, ([], sym (append-nil l)), λ e o after. tt)
  cas_group-kept (uc ∷ ucs) s l here fit few up =
      let items = items_of (uc ∷ ucs) in
      let all = items_of-All Fit (uc ∷ ucs) fit in
      let bound : length items ≤ batch_size = omega (arith, length-items_of (uc ∷ ucs), few) in
      elim (Option-cases (cas items s).1) [
        | inl worked ↦
            let (others, now) = logs.added items s l here all bound worked in
            (
              l ++ (others ++ items),
              now,
              (others ++ items, refl),
              written-durable (uc ∷ ucs) _ (cas items s).1 up (λ e.
                  subst (λ m. AllDurable m (resolve_all none committed (uc ∷ ucs)))
                    (append_assoc l others items)
                    (resolve_all-durable (l ++ others) committed (uc ∷ ucs) up)),
            )
        | inr (x, failed) ↦
            let (more, now) = logs.kept items s l here all bound in
            (
              l ++ more,
              now,
              (more, refl),
              written-durable (uc ∷ ucs) _ (cas items s).1 up (λ e. absurd (cc (failed, e))),
            )
      ]

  -- The log at the end, longer than before, holds what is reported; the batches still held fit.
  abbrev Kept : List EnqueueItem → Drained S → Type 0
  Kept l d =
      (l' : List EnqueueItem) × Log d.state l'
      × Extends l l'
      × AllDurable l' d.resolved
      × AllFit Fit d.committer.ready

  Kept-after :
      (out : List ResolverItem) (l l' : List EnqueueItem) (d : Drained S)
      → Extends l l'
      → AllDurable l' out
      → Kept l' d
      → Kept l (record d { resolved = out ++ d.resolved })
  Kept-after out l l' d more a (l'', now, more', a', fit) = (
    l'',
    now,
    Extends-trans _ _ _ more more',
    AllDurable-append _ out d.resolved (AllDurable-Extends _ _ out more' a) a',
    fit,
  )

  drain-Kept :
      (fuel : ℕ) (c : Committer) (s : S) (l : List EnqueueItem)
      → length c.ready < fuel
      → Log s l
      → AllFit Fit c.ready
      → (d : Drained S) × (drain cas batch_size fuel c s ≡ some d) × Kept l d
  drain-Kept zero c s l h here fit = absurd (omega arith)
  drain-Kept (suc fuel) c s l h here fit =
      let g = take_group batch_size c.next c.ready in
      let s' = (cas_group cas batch_size g.group s).0 in
      let (up, down) = take_group-kinds batch_size c.next c.ready in
      let (group_fits, rest_fits, few) = take_group-GroupFits Fit batch_size c.next c.ready fit in
      let (l', now, more, durable) = cas_group-kept g.group s l here group_fits few up in
      elim (List-cases (g.group ++ g.failed)) [
        | inl nothing ↦ (
          _,
          drain_nothing cas batch_size fuel c s nothing,
          (l, here, ([], sym (append-nil l)), tt, fit),
        )
        | inr (uc, ucs, taken) ↦
            elim (AfterCas-cases (after_cas (cas_group cas batch_size g.group s).1)) [
              | inl (e, o, after) ↦
                  let out = resolve_all e o g.group ++ resolve_failed g.failed in
                  let fewer : length g.ready < fuel =
                    omega (arith, length-take_group batch_size c.next c.ready, ap length taken) in
                  let (d, is_d, k) =
                    drain-Kept fuel (record c { next = g.next; ready = g.ready }) s' l' fewer now
                      rest_fits in
                  let a =
                    AllDurable-append l' (resolve_all e o g.group) (resolve_failed g.failed)
                      (durable e o after) (resolve_failed-durable l' g.failed down) in
                  (
                    record d { resolved = out ++ d.resolved },
                    drain_goes_on cas batch_size fuel c s uc ucs e o taken after
                        ∙ ap (after_resolving out) is_d,
                    Kept-after out l l' d more a k,
                  )
              | inr after ↦ (
                _,
                drain_halts cas batch_size fuel c s uc ucs taken after,
                (
                  l',
                  now,
                  more,
                  AllDurable-append l' (resolve_all (some producer_halted) manifest_failure g.group)
                      _ (resolve_all-error l' producer_halted manifest_failure g.group)
                      (AllDurable-append l' (resolve_failed g.failed) _
                        (resolve_failed-durable l' g.failed down)
                        (resolve_all-error l' producer_halted abandoned g.ready)),
                  tt,
                ),
              )
            ]
      ]

  receive-Kept :
      (uc : UploadCompletion) (more : List UploadCompletion) (c : Committer) (s : S)
      (l : List EnqueueItem)
      → Log s l
      → AllFit Fit (uc ∷ more)
      → AllFit Fit c.ready
      → (d : Drained S) × (receive cas batch_size uc more c s ≡ some d) × Kept l d
  unfolding receive gathered
  receive-Kept uc more c s l here new old = elim (Bool-cases c.halted) [
    | inl halted ↦ (
      _,
      if_then c.halted halted _ _,
      (
        l,
        here,
        ([], sym (append-nil l)),
        resolve_all-error l producer_halted abandoned (uc ∷ more),
        old,
      ),
    )
    | inr live ↦
        let ready = gathered (uc ∷ more) c.ready in
        let (d, is_d, k) =
          drain-Kept (suc (length ready)) (record c { ready = ready }) s l (omega arith) here
            (gathered-AllFit Fit (uc ∷ more) c.ready new old) in
        (d, if_else c.halted live _ _ ∙ is_d, k)
  ]

  turns-Kept :
      (arrivals : List Arrivals) (c : Committer) (s : S) (l : List EnqueueItem)
      → Log s l
      → ArrivalsFit Fit arrivals
      → AllFit Fit c.ready
      → (d : Drained S) × (turns cas batch_size arrivals c s ≡ some d) × Kept l d
  unfolding turns
  turns-Kept [] c s l here new old = (_, refl, (l, here, ([], sym (append-nil l)), tt, old))
  turns-Kept (x ∷ arrivals) c s l here new old =
      let (d, is_d, (l', now, more, a, held)) = receive-Kept x.first x.more c s l here new.0 old in
      let (d', is_d', k) = turns-Kept arrivals d.committer d.state l' now new.1 held in
      (
        _,
        turns_go_on cas batch_size x arrivals c s d d' is_d is_d',
        Kept-after d.resolved l l' d' more a k,
      )

  closing-Kept :
      (in_gather : Bool) (l : List EnqueueItem) (d : Drained S)
      → Kept l d
      → (d' : Drained S) × (closing cas batch_size in_gather d ≡ some d') × Kept l d'
  unfolding closing
  closing-Kept in_gather l d (l', now, more, a, held) =
      elim (Bool-cases (in_gather || d.committer.halted)) [
        | inl stop ↦ (d, if_then _ stop _ _, (l', now, more, a, held))
        | inr live ↦
            let (d', is_d', k) =
              drain-Kept (suc (length d.committer.ready)) d.committer d.state l' (omega arith) now
                held in
            (
              _,
              if_else _ live _ _ ∙ ap (after_resolving d.resolved) is_d',
              Kept-after d.resolved l l' d' more a k,
            )
      ]

  -- A whole run of the committer ends, with a log that is longer than before and in which each batch
  -- that it reports without an error is.
  pub manifest_committer-Kept :
      (arrivals : List Arrivals) (in_gather : Bool) (s : S) (l : List EnqueueItem)
      → Log s l
      → ArrivalsFit Fit arrivals
      → (d : Drained S) × (manifest_committer cas batch_size arrivals in_gather s ≡ some d)
        × (l' : List EnqueueItem) × Log d.state l'
        × Extends l l'
        × AllDurable l' d.resolved
  manifest_committer-Kept arrivals in_gather s l here new =
      let (d, is_d, k) = turns-Kept arrivals new_committer s l here new tt in
      let (d', is_d', (l', now, more, a, held)) = closing-Kept in_gather l d k in
      (
        d',
        manifest_committer_closes cas batch_size arrivals in_gather s d is_d ∙ is_d',
        l',
        now,
        more,
        a,
      )
