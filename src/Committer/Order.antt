-- ===== src/Committer/Order.antt =====
-- buffer/producer.go: the order in which `drain` commits batches.
use opendata_go.Base.{
  subst, inr, ◌∙◌, Option-cases, ◌+◌, append-nil, inl, arith, ◌≢◌, some, zero, sym, ap, ◌++◌, none,
  ◌<◌, ◌≤◌, refl, suc, ◌∷◌, Error, ℕ, List, [], Option, ◌≡◌, length,
}
use opendata_go.Enqueuer.{EnqueueItem}
use opendata_go.Committer.{
  item_of, u64, UploadCompletion, Ready, ready_at, remove, Group, filed, take_group, items_of,
  cas_group, after_cas, go_on, committed,
}
use opendata_go.Committer.Ready.{length-remove}

-- The ready batches under `next`, `next + 1`, … up to the first gap: the reference.
unfoldable pub contiguous : ℕ → ℕ → Ready → List UploadCompletion
contiguous zero next ready = []
contiguous (suc fuel) next ready = elim (ready_at next ready) [
  | none ↦ []
  | some uc ↦ uc ∷ contiguous fuel (u64 (next + 1)) (remove next ready)
]

abbrev pub kept_if : Option Error → UploadCompletion → List UploadCompletion → List UploadCompletion
kept_if none uc ucs = uc ∷ ucs
kept_if (some e) uc ucs = ucs

-- Those that were uploaded.
unfoldable pub uploaded : List UploadCompletion → List UploadCompletion
uploaded [] = []
uploaded (uc ∷ ucs) = kept_if uc.put_error uc (uploaded ucs)

contiguous-fuel :
    (f f' next : ℕ) (ready : Ready)
    → length ready < f
    → length ready < f'
    → contiguous f next ready ≡ contiguous f' next ready
unfolding contiguous
contiguous-fuel zero f' next ready h h' = absurd (omega (arith, h))
contiguous-fuel (suc f) zero next ready h h' = absurd (omega (arith, h'))
contiguous-fuel (suc f) (suc f') next ready h h' = elim (Option-cases (ready_at next ready)) [
  | inl missing ↦ rw (missing, contiguous)
  | inr (uc, found) ↦
      let shorter = length-remove next ready uc found in
      rw (found, contiguous)
        (ap (λ l. uc ∷ l)
          (contiguous-fuel f f' (u64 (next + 1)) (remove next ready) (omega (arith, shorter, h))
            (omega (arith, shorter, h'))))
]

contiguous-missing :
    (f next : ℕ) (ready : Ready) → ready_at next ready ≡ none → contiguous f next ready ≡ []
unfolding contiguous
contiguous-missing zero next ready e = refl
contiguous-missing (suc f) next ready e = rw (e, contiguous)

filed_lem :
    (x : Option Error) (uc : UploadCompletion) (g : Group) (rest : List UploadCompletion)
    → kept_if x uc (g.group ++ rest) ≡ (filed x uc g).group ++ rest
filed_lem none uc g rest = refl
filed_lem (some e) uc g rest = refl

filed-next : (x : Option Error) (uc : UploadCompletion) (g : Group) → (filed x uc g).next ≡ g.next
filed-next none uc g = refl
filed-next (some e) uc g = refl

filed-ready :
    (x : Option Error) (uc : UploadCompletion) (g : Group) → (filed x uc g).ready ≡ g.ready
filed-ready none uc g = refl
filed-ready (some e) uc g = refl

-- A group is the first part of what is contiguous.
take_group-uploaded :
    (room f f' next : ℕ) (ready : Ready)
    → length ready < f
    → length ready < f'
    → uploaded (contiguous f next ready)
      ≡ (take_group room next ready).group
        ++ uploaded
            (contiguous f' (take_group room next ready).next (take_group room next ready).ready)
unfolding take_group contiguous uploaded
take_group-uploaded zero f f' next ready h h' = ap uploaded (contiguous-fuel f f' next ready h h')
take_group-uploaded (suc room) zero f' next ready h h' = absurd (omega (arith, h))
take_group-uploaded (suc room) (suc f) f' next ready h h' =
    elim (Option-cases (ready_at next ready)) [
      | inl missing ↦
          let gone = contiguous-missing f' next ready missing in
          rw (missing, take_group, contiguous) (ap uploaded (sym gone))
      | inr (uc, found) ↦
          let shorter = length-remove next ready uc found in
          let g = take_group room (u64 (next + 1)) (remove next ready) in
          let rest =
            take_group-uploaded room f f' (u64 (next + 1)) (remove next ready)
              (omega (arith, shorter, h)) (omega (arith, shorter, h')) in
          rw (found, take_group, contiguous)
            (ap (kept_if uc.put_error uc) rest
              ∙ filed_lem uc.put_error uc g (uploaded (contiguous f' g.next g.ready))
              ∙ ap (λ n. (filed uc.put_error uc g).group ++ uploaded (contiguous f' n g.ready))
                  (sym (filed-next uc.put_error uc g))
              ∙ ap
                  (λ r.
                    (filed uc.put_error uc g).group
                    ++ uploaded (contiguous f' (filed uc.put_error uc g).next r))
                  (sym (filed-ready uc.put_error uc g)))
    ]

filed-taken :
    (x : Option Error) (uc : UploadCompletion) (g : Group)
    → (filed x uc g).group ++ (filed x uc g).failed ≢ []
filed-taken none uc g e = cc e
filed-taken (some y) uc g e = absurd (no_middle g.group e)
  where
    no_middle : (l : List UploadCompletion) → l ++ (uc ∷ g.failed) ≢ []
    no_middle [] e' = cc e'
    no_middle (z ∷ l) e' = cc e'

-- A group is empty only when the next batch is missing.
pub take_group-nothing :
    (room next : ℕ) (ready : Ready)
    → 1 ≤ room
    → (take_group room next ready).group ++ (take_group room next ready).failed ≡ []
    → ready_at next ready ≡ none
unfolding take_group
take_group-nothing zero next ready h e = absurd (omega (arith, h))
take_group-nothing (suc room) next ready h e = elim (Option-cases (ready_at next ready)) [
  | inl missing ↦ missing
  | inr (uc, found) ↦ absurd (
      filed-taken uc.put_error uc (take_group room (u64 (next + 1)) (remove next ready))
        (rw (found, take_group) at e))
]

pub nothing_items : [] ≡ items_of (uploaded [])
unfolding items_of uploaded
nothing_items = refl

pub items_of-append :
    (xs ys : List UploadCompletion) → items_of (xs ++ ys) ≡ items_of xs ++ items_of ys
unfolding items_of
items_of-append [] ys = refl
items_of-append (x ∷ xs) ys = ap (λ l. item_of x ∷ l) (items_of-append xs ys)

pub after_cas-none : (x : Option Error) → x ≡ none → after_cas x ≡ go_on none committed
unfolding after_cas
after_cas-none none e = refl
after_cas-none (some x) e = absurd (cc e)

-- A manifest that takes the writes that are to come. `Expects s done todo` says that in state `s` it
-- holds the entries of the items `done` and is fit to take those of `todo`; a write of the first of
-- them then succeeds.
pub record Writes {S : Type 0} (cas : List EnqueueItem → S → S × Option Error)
    (Expects : S → List EnqueueItem → List EnqueueItem → Type 0) : Type 0 where
  pub written :
      (item : EnqueueItem) (items : List EnqueueItem) (todo : List EnqueueItem) (s : S)
      (done : List EnqueueItem)
      → Expects s done ((item ∷ items) ++ todo)
      → ((cas (item ∷ items) s).1 ≡ none)
        × Expects (cas (item ∷ items) s).0 (done ++ (item ∷ items)) todo

pub cas_group-written :
    {S : Type 0} (cas : List EnqueueItem → S → S × Option Error) (batch_size : ℕ)
    (Expects : S → List EnqueueItem → List EnqueueItem → Type 0)
    → Writes cas Expects
    → (ucs : List UploadCompletion) (todo : List EnqueueItem) (s : S) (done : List EnqueueItem)
    → Expects s done (items_of ucs ++ todo)
    → ((cas_group cas batch_size ucs s).1 ≡ none)
      × Expects (cas_group cas batch_size ucs s).0 (done ++ items_of ucs) todo
unfolding cas_group items_of
cas_group-written cas batch_size Expects writes [] todo s done here =
    (refl, subst (λ l. Expects s l todo) (sym (append-nil done)) here)
cas_group-written cas batch_size Expects writes (uc ∷ ucs) todo s done here =
    writes.written (item_of uc) (items_of ucs) todo s done here
