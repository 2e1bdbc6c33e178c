-- ===== src/Committer/Run/Draining.antt =====
-- buffer/producer.go: `drain` against the batches in the order of their ordinals, on a manifest that
-- takes what is to come.
use opendata_go.Base.{
  subst, Bool, zero, inr, sym, inl, suc, ◌^◌, [], ◌<◌, refl, ◌≤◌, ◌∙◌, Error, ◌+◌, ap, Option, ◌≡◌,
  ◌++◌, length, length-append, append_assoc, append-nil, List, ℕ, none, some, arith,
}
use mathlib.Core.List.{◌∷◌, Perm}
use opendata_go.Enqueuer.{EnqueueItem}
use opendata_go.Committer.{
  UploadCompletion, ResolverItem, ready_at, take_group, items_of, resolve_all, resolve_failed,
  Committer, Drained, cas_group, drain, after_resolving, committed,
}
use opendata_go.Committer.Ready.{length-take_group}
use opendata_go.Committer.Accounts.{List-cases, drain_nothing, drain_goes_on}
use opendata_go.Committer.Order.{
  kept_if, uploaded, Writes, cas_group-written, after_cas-none, take_group-nothing, items_of-append,
  nothing_items,
}
use opendata_go.Committer.Numbered.{NumberedFrom, take_group-Taken}

-- `d` comes from a committer at `next` by committing the first part of what was to come, up to a gap.
pub record Advanced {S : Type 0} (Expects : S → List EnqueueItem → List EnqueueItem → Type 0)
    (next : ℕ) (halted : Bool) (done : List EnqueueItem) (future rest : List UploadCompletion)
    (d : Drained S) : Type 0 where
  pub first : List UploadCompletion
  pub later : List UploadCompletion
  pub splits : rest ≡ first ++ later
  pub logged : Expects d.state (done ++ items_of (uploaded first)) (items_of (uploaded later))
  pub next_is : d.committer.next ≡ next + length first
  pub later_numbered : NumberedFrom d.committer.next later
  pub still_to_come : Perm (d.committer.ready ++ future) later
  pub gap : ready_at d.committer.next d.committer.ready ≡ none
  pub not_halted : d.committer.halted ≡ halted

kept_if-append :
    (x : Option Error) (uc : UploadCompletion) (xs ys : List UploadCompletion)
    → kept_if x uc (xs ++ ys) ≡ kept_if x uc xs ++ ys
kept_if-append none uc xs ys = refl
kept_if-append (some e) uc xs ys = refl

uploaded-append : (xs ys : List UploadCompletion) → uploaded (xs ++ ys) ≡ uploaded xs ++ uploaded ys
unfolding uploaded
uploaded-append [] ys = refl
uploaded-append (x ∷ xs) ys =
    ap (kept_if x.put_error x) (uploaded-append xs ys)
    ∙ kept_if-append x.put_error x (uploaded xs) (uploaded ys)

pub items_of-uploaded-append :
    (xs ys : List UploadCompletion)
    → items_of (uploaded (xs ++ ys)) ≡ items_of (uploaded xs) ++ items_of (uploaded ys)
items_of-uploaded-append xs ys =
    ap items_of (uploaded-append xs ys) ∙ items_of-append (uploaded xs) (uploaded ys)

pub Advanced-trans :
    {S : Type 0} (Expects : S → List EnqueueItem → List EnqueueItem → Type 0) (next : ℕ)
    (halted : Bool) (done : List EnqueueItem) (future future' rest : List UploadCompletion)
    (d d' : Drained S) (out : List ResolverItem)
    (a : Advanced Expects next halted done future rest d)
    → Advanced Expects d.committer.next d.committer.halted
        (done ++ items_of (uploaded a.first))
        future'
        a.later
        d'
    → Advanced Expects next halted done future' rest (record d' { resolved = out ++ d'.resolved })
Advanced-trans Expects next halted done future future' rest d d' out a b = record {
  first = a.first ++ b.first;
  later = b.later;
  splits = a.splits ∙ ap (λ l. a.first ++ l) b.splits ∙ sym (append_assoc a.first b.first b.later);
  logged =
      subst (λ l. Expects d'.state l (items_of (uploaded b.later)))
        (append_assoc done (items_of (uploaded a.first)) (items_of (uploaded b.first))
          ∙ ap (λ l. done ++ l) (sym (items_of-uploaded-append a.first b.first)))
        b.logged;
  next_is = omega (arith, a.next_is, b.next_is, length-append a.first b.first);
  later_numbered = b.later_numbered;
  still_to_come = b.still_to_come;
  gap = b.gap;
  not_halted = b.not_halted ∙ a.not_halted;
}

module _ {S : Type 0} (cas : List EnqueueItem → S → S × Option Error) (batch_size : ℕ)
    (Expects : S → List EnqueueItem → List EnqueueItem → Type 0) (writes : Writes cas Expects) where
  pub drain-Advanced :
      (fuel : ℕ) (c : Committer) (s : S) (done : List EnqueueItem)
      (future rest : List UploadCompletion)
      → 1 ≤ batch_size
      → length c.ready < fuel
      → c.next + length rest < 2 ^ 64
      → NumberedFrom c.next rest
      → Perm (c.ready ++ future) rest
      → Expects s done (items_of (uploaded rest))
      → (d : Drained S) × (drain cas batch_size fuel c s ≡ some d)
        × Advanced Expects c.next c.halted done future rest d
  drain-Advanced zero c s done future rest b h small numbered p here = absurd (omega (arith, h))
  drain-Advanced (suc fuel) c s done future rest b h small numbered p here =
      let g = take_group batch_size c.next c.ready in
      elim (List-cases (g.group ++ g.failed)) [
        | inl nothing ↦ (
          _,
          drain_nothing cas batch_size fuel c s nothing,
          record {
            first = [];
            later = rest;
            splits = refl;
            logged =
                subst (λ l. Expects s l (items_of (uploaded rest)))
                  (sym (append-nil done) ∙ ap (λ l. done ++ l) nothing_items) here;
            next_is = omega arith;
            later_numbered = numbered;
            still_to_come = p;
            gap = take_group-nothing batch_size c.next c.ready b nothing;
            not_halted = refl;
          },
        )
        | inr (uc, ucs, taken) ↦
            let t = take_group-Taken batch_size c.next c.ready future rest small numbered p in
            let c' = record c { next = g.next; ready = g.ready } in
            let s' = (cas_group cas batch_size g.group s).0 in
            let fewer : length g.ready < fuel =
              omega (arith, length-take_group batch_size c.next c.ready, ap length taken) in
            let small' : g.next + length t.later < 2 ^ 64 =
              omega (arith, small, t.next_is, ap length t.splits, length-append t.first t.later) in
            let here' =
              subst (Expects s done)
                (ap (λ l. items_of (uploaded l)) t.splits
                  ∙ items_of-uploaded-append t.first t.later
                  ∙ ap (λ l. items_of l ++ items_of (uploaded t.later)) (sym t.group_is))
                here in
            let (no_error, there) =
              cas_group-written cas batch_size Expects writes g.group (items_of (uploaded t.later))
                s done here' in
            let (d, is_d, a) =
              drain-Advanced fuel c' s' (done ++ items_of g.group) future t.later b fewer small'
                t.later_numbered t.still_to_come there in
            let after = after_cas-none (cas_group cas batch_size g.group s).1 no_error in
            let out = resolve_all none committed g.group ++ resolve_failed g.failed in
            (
              record d { resolved = out ++ d.resolved },
              drain_goes_on cas batch_size fuel c s uc ucs none committed taken after
                  ∙ ap (after_resolving out) is_d,
              record {
                first = t.first ++ a.first;
                later = a.later;
                splits =
                    t.splits
                    ∙ ap (λ l. t.first ++ l) a.splits
                    ∙ sym (append_assoc t.first a.first a.later);
                logged =
                    subst (λ l. Expects d.state l (items_of (uploaded a.later)))
                      (ap (λ l. (done ++ items_of l) ++ items_of (uploaded a.first)) t.group_is
                        ∙ append_assoc done (items_of (uploaded t.first))
                            (items_of (uploaded a.first))
                        ∙ ap (λ l. done ++ l) (sym (items_of-uploaded-append t.first a.first)))
                      a.logged;
                next_is = omega (arith, a.next_is, t.next_is, length-append t.first a.first);
                later_numbered = a.later_numbered;
                still_to_come = a.still_to_come;
                gap = a.gap;
                not_halted = a.not_halted;
              },
            )
      ]
