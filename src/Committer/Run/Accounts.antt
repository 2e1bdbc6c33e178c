-- ===== src/Committer/Run/Accounts.antt =====
-- buffer/producer.go: what becomes of the batches of a whole run of `manifestCommitter`.
use opendata_go.Base.{
  if_else, if_then, ap, producer_halted, refl, sym, ◌∙◌, subst, arith, Error, Option, some, Bool,
  List, [], ◌++◌, ◌≡◌, ℕ, ◌||◌, suc, Bool-cases, inl, inr, ◌∷◌, length,
}
use mathlib.Core.List.{append-nil, append_assoc, Perm, perm_append_comm}
use mathlib.Core.List.Perm
use opendata_go.Enqueuer.{EnqueueItem}
use opendata_go.Committer.{
  abandoned, UploadCompletion, ResolverItem, Committer, Drained, gathered, receive, after_resolving,
}
use opendata_go.Committer.Accounts.{
  completions, completions-append, completions-resolve_all, nothing_resolved, accounted,
  drain_accounts,
}
use opendata_go.Committer.Distinct.{Distinct, gathered-Perm, count-append, count-Perm}
use opendata_go.Committer.Run.{
  Arrivals, received, new_committer, turns, closing, manifest_committer,
}
use opendata_go.Committer.Run.Arrival.{turns_go_on, manifest_committer_closes}

move_front : (a f r : List UploadCompletion) → Perm (a ++ (f ++ r)) (f ++ (a ++ r))
move_front a f r =
    subst (λ l. Perm l (f ++ (a ++ r))) (append_assoc a f r)
      (subst (λ l. Perm ((a ++ f) ++ r) l) (append_assoc f a r)
        (Perm.append_right r (perm_append_comm a f)))

accounted_after :
    {S : Type 0} (out : List ResolverItem) (d : Drained S) (r : List UploadCompletion)
    → Perm (accounted d) r
    → Perm (accounted (record d { resolved = out ++ d.resolved })) (completions out ++ r)
accounted_after out d r p =
    rw
      (
        completions-append out d.resolved,
        append_assoc (completions out) (completions d.resolved) d.committer.ready,
      )
      (Perm.append_left (completions out) p)

module _ {S : Type 0} (cas : List EnqueueItem → S → S × Option Error) (batch_size : ℕ) where
  receive_accounts :
      (uc : UploadCompletion) (more : List UploadCompletion) (c : Committer) (s : S)
      → Distinct ((uc ∷ more) ++ c.ready)
      → (d : Drained S) × (receive cas batch_size uc more c s ≡ some d)
        × Perm (accounted d) ((uc ∷ more) ++ c.ready)
  unfolding receive gathered
  receive_accounts uc more c s distinct = elim (Bool-cases c.halted) [
    | inl halted ↦ (
      _,
      if_then c.halted halted _ _,
      subst (λ l. Perm (l ++ c.ready) ((uc ∷ more) ++ c.ready))
          (sym (completions-resolve_all (some producer_halted) abandoned (uc ∷ more))) Perm.rfl,
    )
    | inr live ↦
        let ready = gathered (uc ∷ more) c.ready in
        let (d, is_d, p) =
          drain_accounts cas batch_size (suc (length ready)) (record c { ready = ready }) s
            (omega arith) in
        (
          d,
          if_else c.halted live _ _ ∙ is_d,
          Perm.trans p (gathered-Perm (uc ∷ more) c.ready distinct),
        )
  ]

  turns_accounts :
      (arrivals : List Arrivals) (c : Committer) (s : S)
      → Distinct (received arrivals ++ c.ready)
      → (d : Drained S) × (turns cas batch_size arrivals c s ≡ some d)
        × Perm (accounted d) (received arrivals ++ c.ready)
  unfolding turns received
  turns_accounts [] c s distinct = (_, refl, nothing_resolved c.ready)
  turns_accounts (x ∷ arrivals) c s distinct =
      let new = x.first ∷ x.more in
      let future = received arrivals in
      let distinct' : Distinct (new ++ c.ready) = λ k. omega (
        arith,
        distinct k,
        count-append k (new ++ future) c.ready,
        count-append k new future,
        count-append k new c.ready,
      ) in
      let (d, is_d, p) = receive_accounts x.first x.more c s distinct' in
      let later : Distinct (future ++ d.committer.ready) = λ k. omega (
        arith,
        distinct k,
        count-append k (new ++ future) c.ready,
        count-append k new future,
        count-append k new c.ready,
        count-append k future d.committer.ready,
        count-append k (completions d.resolved) d.committer.ready,
        count-Perm k p,
      ) in
      let (d', is_d', p') = turns_accounts arrivals d.committer d.state later in
      (
        record d' { resolved = d.resolved ++ d'.resolved },
        turns_go_on cas batch_size x arrivals c s d d' is_d is_d',
        Perm.trans (accounted_after d.resolved d' (future ++ d.committer.ready) p') (
            Perm.trans (move_front (completions d.resolved) future d.committer.ready) (
              Perm.trans (Perm.append_left future p) (
                subst (λ l. Perm (future ++ (new ++ c.ready)) l)
                  (sym (append_assoc new future c.ready)) (move_front future new c.ready)))),
      )

  closing_accounts :
      (in_gather : Bool) (d : Drained S)
      → (d' : Drained S) × (closing cas batch_size in_gather d ≡ some d')
        × Perm (accounted d') (accounted d)
  unfolding closing
  closing_accounts in_gather d = elim (Bool-cases (in_gather || d.committer.halted)) [
    | inl stop ↦ (d, if_then _ stop _ _, Perm.rfl)
    | inr live ↦
        let (d', is_d', p) =
          drain_accounts cas batch_size (suc (length d.committer.ready)) d.committer d.state
            (omega arith) in
        (
          record d' { resolved = d.resolved ++ d'.resolved },
          if_else _ live _ _ ∙ ap (after_resolving d.resolved) is_d',
          accounted_after d.resolved d' d.committer.ready p,
        )
  ]

  -- A whole run of the committer ends, whatever the manifest's writes return; and if no two
  -- completions bear the same ordinal, every completion that arrived was handed to the resolver
  -- exactly once, or is left in the map of ready batches.
  pub manifest_committer_accounts :
      (arrivals : List Arrivals) (in_gather : Bool) (s : S)
      → Distinct (received arrivals)
      → (d : Drained S) × (manifest_committer cas batch_size arrivals in_gather s ≡ some d)
        × Perm (accounted d) (received arrivals)
  manifest_committer_accounts arrivals in_gather s distinct =
      let whole = append-nil (received arrivals) in
      let (d, is_d, p) =
        turns_accounts arrivals new_committer s (subst Distinct (sym whole) distinct) in
      let (d', is_d', p') = closing_accounts in_gather d in
      (
        d',
        manifest_committer_closes cas batch_size arrivals in_gather s d is_d ∙ is_d',
        Perm.trans p' (subst (Perm (accounted d)) whole p),
      )
