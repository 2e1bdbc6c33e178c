-- ===== src/Committer/Run/Reported.antt =====
-- buffer/producer.go: what the results that `drain` hands out say of its batches and of the manifest.
use opendata_go.Base.{
  All, ◌≤◌, if_else, if_then, storage, producer_halted, shutdown, ap, ◌⊎◌, arith, sym, ◌∙◌, refl,
  subst, Error, Option, none, some, Bool, true, false, List, [], ◌++◌, ◌≡◌, ◌≢◌, ℕ, ◌||◌, ◌+◌, ◌<◌,
  suc, zero, Bool-cases, Option-cases, inl, inr, ◌∷◌, length,
}
use mathlib.Core.List.{append_assoc, Mem, mem-append_left, mem-append_right, mem-cons_self}
use opendata_go.Enqueuer.{EnqueueItem}
use opendata_go.Committer.{
  go_on, remove, u64, ready_at, UploadCompletion, ResolverItem, BatchOutcome, Group, Ready, filed,
  take_group, items_of, item_of, resolve_all, resolve_failed, after_cas,
}

-- A manifest that other clients write too, and whose writes may fail. `Log s l` says that in state `s`
-- it holds the entries of the items `l`. A write of at most `most` items that fit adds them if it
-- reports no error, and removes none in any case.
pub record Logs {S : Type 0} (cas : List EnqueueItem → S → S × Option Error)
    (Log : S → List EnqueueItem → Type 0) (Fit : EnqueueItem → Type 0) (most : ℕ) : Type 0 where
  pub added :
      (items : List EnqueueItem) (s : S) (l : List EnqueueItem)
      → Log s l
      → All Fit items
      → length items ≤ most
      → (cas items s).1 ≡ none
      → (others : List EnqueueItem) × Log (cas items s).0 (l ++ (others ++ items))
  pub kept :
      (items : List EnqueueItem) (s : S) (l : List EnqueueItem)
      → Log s l
      → All Fit items
      → length items ≤ most
      → (more : List EnqueueItem) × Log (cas items s).0 (l ++ more)

-- A batch that is reported without an error was uploaded, and its entry is in the manifest.
abbrev pub IsDurable : List EnqueueItem → ResolverItem → Type 0
IsDurable l r = r.error ≡ none → (r.completion.put_error ≡ none) × Mem (item_of r.completion) l

abbrev pub AllDurable : List EnqueueItem → List ResolverItem → Type 0
AllDurable l [] = Unit {0}
AllDurable l (r ∷ rs) = IsDurable l r × AllDurable l rs

pub AllDurable-append :
    (l : List EnqueueItem) (xs ys : List ResolverItem)
    → AllDurable l xs
    → AllDurable l ys
    → AllDurable l (xs ++ ys)
AllDurable-append l [] ys a b = b
AllDurable-append l (x ∷ xs) ys a b = (a.0, AllDurable-append l xs ys a.1 b)

AllDurable-more :
    (l m : List EnqueueItem) (rs : List ResolverItem) → AllDurable l rs → AllDurable (l ++ m) rs
AllDurable-more l m [] a = tt
AllDurable-more l m (r ∷ rs) a =
    (λ e. let (up, there) = a.0 e in (up, mem-append_left m there), AllDurable-more l m rs a.1)

pub AllUploaded : List UploadCompletion → Type 0
AllUploaded [] = Unit {0}
AllUploaded (uc ∷ ucs) = (uc.put_error ≡ none) × AllUploaded ucs

pub AllFailed : List UploadCompletion → Type 0
AllFailed [] = Unit {0}
AllFailed (uc ∷ ucs) = (uc.put_error ≢ none) × AllFailed ucs

filed-kinds :
    (x : Option Error) (uc : UploadCompletion) (g : Group)
    → uc.put_error ≡ x
    → AllUploaded g.group × AllFailed g.failed
    → AllUploaded (filed x uc g).group × AllFailed (filed x uc g).failed
unfolding AllUploaded AllFailed
filed-kinds none uc g e (up, down) = ((e, up), down)
filed-kinds (some x) uc g e (up, down) = (up, (λ no. cc (e, no), down))

pub take_group-kinds :
    (room next : ℕ) (ready : Ready)
    → AllUploaded (take_group room next ready).group × AllFailed (take_group room next ready).failed
unfolding take_group AllUploaded AllFailed
take_group-kinds zero next ready = (tt, tt)
take_group-kinds (suc room) next ready = elim (Option-cases (ready_at next ready)) [
  | inl missing ↦ rw (missing, take_group) (tt, tt)
  | inr (uc, found) ↦
      rw (found, take_group)
        (filed-kinds uc.put_error uc (take_group room (u64 (next + 1)) (remove next ready)) refl
          (take_group-kinds room (u64 (next + 1)) (remove next ready)))
]

pub resolve_failed-durable :
    (l : List EnqueueItem) (ucs : List UploadCompletion)
    → AllFailed ucs
    → AllDurable l (resolve_failed ucs)
unfolding resolve_failed AllFailed
resolve_failed-durable l [] h = tt
resolve_failed-durable l (uc ∷ ucs) h = (λ e. absurd (h.0 e), resolve_failed-durable l ucs h.1)

-- Batches that are reported with an error.
pub resolve_all-error :
    (l : List EnqueueItem) (e : Error) (o : BatchOutcome) (ucs : List UploadCompletion)
    → AllDurable l (resolve_all (some e) o ucs)
unfolding resolve_all
resolve_all-error l e o [] = tt
resolve_all-error l e o (uc ∷ ucs) = (λ no. cc no, resolve_all-error l e o ucs)

pub resolve_all-durable :
    (l : List EnqueueItem) (o : BatchOutcome) (ucs : List UploadCompletion)
    → AllUploaded ucs
    → AllDurable (l ++ items_of ucs) (resolve_all none o ucs)
unfolding resolve_all items_of AllUploaded
resolve_all-durable l o [] up = tt
resolve_all-durable l o (uc ∷ ucs) up = (
  λ e. (up.0, mem-append_right l mem-cons_self),
  subst (λ m. AllDurable m (resolve_all none o ucs))
      (append_assoc l (item_of uc ∷ []) (items_of ucs))
      (resolve_all-durable (l ++ (item_of uc ∷ [])) o ucs up.1),
)

-- The second log goes on where the first ends.
abbrev pub Extends : List EnqueueItem → List EnqueueItem → Type 0
Extends l l' = (more : List EnqueueItem) × (l' ≡ l ++ more)

pub Extends-trans : (l l' l'' : List EnqueueItem) → Extends l l' → Extends l' l'' → Extends l l''
Extends-trans l l' l'' (m, e) (m', e') = (m ++ m', e' ∙ ap (λ x. x ++ m') e ∙ append_assoc l m m')

pub AllDurable-Extends :
    (l l' : List EnqueueItem) (rs : List ResolverItem)
    → Extends l l'
    → AllDurable l rs
    → AllDurable l' rs
AllDurable-Extends l l' rs (m, e) a =
    subst (λ x. AllDurable x rs) (sym e) (AllDurable-more l m rs a)

pub go_on-cases :
    (x e : Option Error) (o : BatchOutcome)
    → after_cas x ≡ go_on e o
    → ((x ≡ none) × (e ≡ none)) ⊎ ((y : Error) × (e ≡ some y))
unfolding after_cas
go_on-cases none none o h = inl (refl, refl)
go_on-cases x (some y) o h = inr (y, refl)
go_on-cases (some x) none o h = absurd (never x h)
  where
    never : (x : Error) → after_cas (some x) ≢ go_on none o
    never opendata_go.Base.shutdown h' = cc h'
    never opendata_go.Base.storage h' = cc h'
    never opendata_go.Base.serialization h' = cc h'
    never opendata_go.Base.invalid_input h' = cc h'
    never opendata_go.Base.fenced h' = cc h'
    never opendata_go.Base.producer_halted h' = cc h'
    never opendata_go.Base.not_found h' = cc h'
    never opendata_go.Base.precondition_failed h' = cc h'
    never opendata_go.Base.context_done h' = cc h'
    never opendata_go.Base.transport h' = cc h'
