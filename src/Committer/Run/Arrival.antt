-- ===== src/Committer/Run/Arrival.antt =====
-- buffer/producer.go: the batches of a whole run of `manifestCommitter`, whatever the order in which
-- their uploads end, on a manifest that takes what is to come.
use opendata_go.Base.{
  if_else, ap, subst, sym, ◌==◌, ◌∙◌, arith, refl, length, length-append, ◌+◌, ◌<◌, ◌≤◌, ◌^◌, Error,
  Option, none, some, Bool, true, false, List, [], ◌++◌, ◌≡◌, ℕ, suc,
}
use mathlib.Core.List.{
  append_assoc, append-nil, ◌∷◌, Perm, perm_append_comm, not-mem-nil, mem-cons_self,
}
use mathlib.Core.List.Perm
use opendata_go.Enqueuer.{EnqueueItem}
use opendata_go.Committer.{
  UploadCompletion, Committer, Drained, ready_at, gathered, receive, after_resolving, items_of,
}
use opendata_go.Committer.Order.{Writes, uploaded, nothing_items}
use opendata_go.Committer.Numbered.{NumberedFrom}
use opendata_go.Committer.Distinct.{
  Distinct, Distinct-Perm, NumberedFrom-Distinct, gathered-Perm, count, one_if, count-append,
  count-Perm, count-absent,
}
use opendata_go.Committer.Run.{
  Arrivals, received, new_committer, turns, closing, manifest_committer,
}
use opendata_go.Committer.Run.Draining.{Advanced, Advanced-trans, drain-Advanced}

Distinct-left : (xs ys : List UploadCompletion) → Distinct (xs ++ ys) → Distinct xs
Distinct-left xs ys d k = omega (arith, d k, count-append k xs ys)

-- The map after `gather`, with what is still to arrive.
arrived-Perm :
    (new ready future rest : List UploadCompletion) (n : ℕ)
    → NumberedFrom n rest
    → Perm (ready ++ (new ++ future)) rest
    → Perm (gathered new ready ++ future) rest
arrived-Perm new ready future rest n numbered p =
    let swapped : Perm ((new ++ ready) ++ future) rest =
      Perm.trans (Perm.append_right future (perm_append_comm new ready))
        (subst (λ l. Perm l rest) (sym (append_assoc ready new future)) p) in
    let one =
      Distinct-left (new ++ ready) future
        (Distinct-Perm swapped (NumberedFrom-Distinct n rest numbered)) in
    Perm.trans (Perm.append_right future (gathered-Perm new ready one)) swapped

-- Where the next batch is missing, and none is to arrive, none is left.
none_later :
    (next : ℕ) (ready later : List UploadCompletion)
    → NumberedFrom next later
    → Perm (ready ++ []) later
    → ready_at next ready ≡ none
    → later ≡ []
unfolding count
none_later next ready [] h p gap = refl
none_later next ready (uc ∷ later) h p gap =
    let own : one_if (uc.eb.ordinal == next) ≡ 1 = ground (arith, h.0) in
    absurd (
      omega
        (arith, own, count-Perm next p, count-append next ready [], count-absent next ready gap))

none_ready : (ready : List UploadCompletion) → Perm (ready ++ []) [] → ready ≡ []
none_ready [] p = refl
none_ready (uc ∷ ready) p = absurd (not-mem-nil ((Perm.mem_iff p).0 mem-cons_self))

pub turns_go_on :
    {S : Type 0} (cas : List EnqueueItem → S → S × Option Error) (batch_size : ℕ) (x : Arrivals)
    (arrivals : List Arrivals) (c : Committer) (s : S) (d d' : Drained S)
    → receive cas batch_size x.first x.more c s ≡ some d
    → turns cas batch_size arrivals d.committer d.state ≡ some d'
    → turns cas batch_size (x ∷ arrivals) c s
      ≡ some (record d' { resolved = d.resolved ++ d'.resolved })
unfolding turns
turns_go_on cas batch_size x arrivals c s d d' e e' = rw (e, e', turns)

pub manifest_committer_closes :
    {S : Type 0} (cas : List EnqueueItem → S → S × Option Error) (batch_size : ℕ)
    (arrivals : List Arrivals) (in_gather : Bool) (s : S) (d : Drained S)
    → turns cas batch_size arrivals new_committer s ≡ some d
    → manifest_committer cas batch_size arrivals in_gather s ≡ closing cas batch_size in_gather d
unfolding manifest_committer
manifest_committer_closes cas batch_size arrivals in_gather s d e = rw (e, manifest_committer)

module _ {S : Type 0} (cas : List EnqueueItem → S → S × Option Error) (batch_size : ℕ)
    (Expects : S → List EnqueueItem → List EnqueueItem → Type 0) (writes : Writes cas Expects) where
  receive-Advanced :
      (uc : UploadCompletion) (more : List UploadCompletion) (c : Committer) (s : S)
      (done : List EnqueueItem) (future rest : List UploadCompletion)
      → 1 ≤ batch_size
      → c.halted ≡ false
      → c.next + length rest < 2 ^ 64
      → NumberedFrom c.next rest
      → Perm (c.ready ++ ((uc ∷ more) ++ future)) rest
      → Expects s done (items_of (uploaded rest))
      → (d : Drained S) × (receive cas batch_size uc more c s ≡ some d)
        × Advanced Expects c.next c.halted done future rest d
  unfolding receive gathered
  receive-Advanced uc more c s done future rest b live small numbered p here =
      let ready = gathered (uc ∷ more) c.ready in
      let (d, is_d, a) =
        drain-Advanced cas batch_size Expects writes (suc (length ready))
          (record c { ready = ready }) s done future rest b (omega arith) small numbered
          (arrived-Perm (uc ∷ more) c.ready future rest c.next numbered p) here in
      (d, if_else c.halted live _ _ ∙ is_d, a)

  turns-Advanced :
      (arrivals : List Arrivals) (c : Committer) (s : S) (done : List EnqueueItem)
      (rest : List UploadCompletion)
      → 1 ≤ batch_size
      → c.halted ≡ false
      → c.next + length rest < 2 ^ 64
      → NumberedFrom c.next rest
      → Perm (c.ready ++ received arrivals) rest
      → ready_at c.next c.ready ≡ none
      → Expects s done (items_of (uploaded rest))
      → (d : Drained S) × (turns cas batch_size arrivals c s ≡ some d)
        × Advanced Expects c.next c.halted done [] rest d
  unfolding turns received
  turns-Advanced [] c s done rest b live small numbered p gap here = (
    _,
    refl,
    record {
      first = [];
      later = rest;
      splits = refl;
      logged =
          subst (λ l. Expects s l (items_of (uploaded rest)))
            (sym (append-nil done) ∙ ap (λ l. done ++ l) nothing_items) here;
      next_is = omega arith;
      later_numbered = numbered;
      still_to_come = p;
      gap = gap;
      not_halted = refl;
    },
  )
  turns-Advanced (x ∷ arrivals) c s done rest b live small numbered p gap here =
      let (d, is_d, a) =
        receive-Advanced x.first x.more c s done (received arrivals) rest b live small numbered p
          here in
      let small' : d.committer.next + length a.later < 2 ^ 64 =
        omega (arith, small, a.next_is, ap length a.splits, length-append a.first a.later) in
      let (d', is_d', a') =
        turns-Advanced arrivals d.committer d.state (done ++ items_of (uploaded a.first)) a.later b
          (a.not_halted ∙ live) small' a.later_numbered a.still_to_come a.gap a.logged in
      (
        _,
        turns_go_on cas batch_size x arrivals c s d d' is_d is_d',
        Advanced-trans Expects c.next c.halted done (received arrivals) [] rest d d' d.resolved a
            a',
      )

  -- Nothing is left when nothing more arrives.
  all_committed :
      (next : ℕ) (halted : Bool) (done : List EnqueueItem) (rest : List UploadCompletion)
      (d : Drained S)
      → Advanced Expects next halted done [] rest d
      → Expects d.state (done ++ items_of (uploaded rest)) [] × (d.committer.ready ≡ [])
  all_committed next halted done rest d a =
      let over =
        none_later d.committer.next d.committer.ready a.later a.later_numbered a.still_to_come
          a.gap in
      let whole : rest ≡ a.first = a.splits ∙ ap (λ l. a.first ++ l) over ∙ append-nil a.first in
      (
        subst (λ l. Expects d.state (done ++ items_of (uploaded l)) []) (sym whole)
            (subst (Expects d.state (done ++ items_of (uploaded a.first)))
              (ap (λ l. items_of (uploaded l)) over ∙ sym nothing_items) a.logged),
        none_ready d.committer.ready
            (subst (λ l. Perm (d.committer.ready ++ []) l) over a.still_to_come),
      )

  -- The closing drain finds nothing to commit.
  closing-Advanced :
      (in_gather : Bool) (next : ℕ) (done : List EnqueueItem) (rest : List UploadCompletion)
      (d : Drained S)
      → 1 ≤ batch_size
      → next + length rest < 2 ^ 64
      → Advanced Expects next false done [] rest d
      → (d' : Drained S) × (closing cas batch_size in_gather d ≡ some d')
        × Advanced Expects next false done [] rest d'
  unfolding closing
  closing-Advanced true next done rest d b small a = (d, refl, a)
  closing-Advanced false next done rest d b small a =
      let small' : d.committer.next + length a.later < 2 ^ 64 =
        omega (arith, small, a.next_is, ap length a.splits, length-append a.first a.later) in
      let (d', is_d', a') =
        drain-Advanced cas batch_size Expects writes (suc (length d.committer.ready)) d.committer
          d.state (done ++ items_of (uploaded a.first)) [] a.later b (omega arith) small'
          a.later_numbered a.still_to_come a.logged in
      (
        record d' { resolved = d.resolved ++ d'.resolved },
        if_else d.committer.halted a.not_halted _ _ ∙ (ap (after_resolving d.resolved) is_d'),
        Advanced-trans Expects next false done [] [] rest d d' d.resolved a a',
      )

  -- On a manifest that takes what is to come, a whole run of the committer ends, leaves no batch behind
  -- and has appended the uploaded batches in the order of their ordinals.
  pub manifest_committer-Advanced :
      (arrivals : List Arrivals) (in_gather : Bool) (s : S) (done : List EnqueueItem)
      (sorted : List UploadCompletion)
      → 1 ≤ batch_size
      → length sorted < 2 ^ 64
      → NumberedFrom 0 sorted
      → Perm (received arrivals) sorted
      → Expects s done (items_of (uploaded sorted))
      → (d : Drained S) × (manifest_committer cas batch_size arrivals in_gather s ≡ some d)
        × Expects d.state (done ++ items_of (uploaded sorted)) []
        × (d.committer.ready ≡ [])
  unfolding ready_at
  manifest_committer-Advanced arrivals in_gather s done sorted b small numbered p here =
      let (d, is_d, a) =
        turns-Advanced arrivals new_committer s done sorted b refl (omega (arith, small)) numbered p
          refl here in
      let (d', is_d', a') = closing-Advanced in_gather 0 done sorted d b (omega (arith, small)) a in
      let (logged, nothing_left) = all_committed 0 false done sorted d' a' in
      (
        d',
        manifest_committer_closes cas batch_size arrivals in_gather s d is_d ∙ is_d',
        logged,
        nothing_left,
      )
