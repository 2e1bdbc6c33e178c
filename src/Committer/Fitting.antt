-- ===== src/Committer/Fitting.antt =====
-- buffer/producer.go: a property of all batches that the committer holds goes with them into a group.
use opendata_go.Base.{
  ◌==◌, ◌+◌, All, Option, none, some, List, [], ◌∷◌, ◌≡◌, ◌≤◌, Bool-cases, Option-cases, inl, inr,
  zero, suc, ℕ, length, arith, refl, subst, sym, ◌∙◌, ap, Error, if_then, if_else,
}
use mathlib.Core.Option.{some-injective}
use opendata_go.Enqueuer.{EnqueueItem}
use opendata_go.Committer.{
  u64, UploadCompletion, Ready, Group, ready_at, remove, place, gathered, filed, take_group,
  item_of, items_of,
}

module _ (Fit : EnqueueItem → Type 0) where
  -- Each batch's item fits.
  abbrev pub AllFit : List UploadCompletion → Type 0
  AllFit [] = Unit {0}
  AllFit (uc ∷ ucs) = Fit (item_of uc) × AllFit ucs

  ready_at-AllFit :
      (k : ℕ) (ready : Ready) (uc : UploadCompletion)
      → AllFit ready
      → ready_at k ready ≡ some uc
      → Fit (item_of uc)
  unfolding ready_at
  ready_at-AllFit k [] uc fit e = absurd (cc e)
  ready_at-AllFit k (x ∷ ready) uc fit e = elim (Bool-cases (x.eb.ordinal == k)) [
    | inl here ↦
        subst (λ y. Fit (item_of y)) (some-injective _ _ (sym (if_then _ here _ _) ∙ e)) fit.0
    | inr there ↦ ready_at-AllFit k ready uc fit.1 (sym (if_else _ there _ _) ∙ e)
  ]

  remove-AllFit : (k : ℕ) (ready : Ready) → AllFit ready → AllFit (remove k ready)
  unfolding remove
  remove-AllFit k [] fit = tt
  remove-AllFit k (x ∷ ready) fit = elim (Bool-cases (x.eb.ordinal == k)) [
    | inl here ↦ subst AllFit (sym (if_then (x.eb.ordinal == k) here _ _)) fit.1
    | inr there ↦
        subst AllFit (sym (if_else (x.eb.ordinal == k) there _ _))
          (fit.0, remove-AllFit k ready fit.1)
  ]

  pub gathered-AllFit :
      (ucs : List UploadCompletion) (ready : Ready)
      → AllFit ucs
      → AllFit ready
      → AllFit (gathered ucs ready)
  unfolding gathered place
  gathered-AllFit [] ready new old = old
  gathered-AllFit (uc ∷ ucs) ready new old =
      gathered-AllFit ucs (place uc ready) new.1 (new.0, remove-AllFit uc.eb.ordinal ready old)

  -- What a group takes and leaves fits, and it takes at most `room`.
  abbrev pub GroupFits : ℕ → Group → Type 0
  GroupFits room g = AllFit g.group × AllFit g.ready × (length g.group ≤ room)

  filed-GroupFits :
      (x : Option Error) (room : ℕ) (uc : UploadCompletion) (g : Group)
      → Fit (item_of uc)
      → GroupFits room g
      → GroupFits (suc room) (filed x uc g)
  filed-GroupFits none room uc g one (some_fit, rest, few) =
      ((one, some_fit), rest, omega (arith, few))
  filed-GroupFits (some e) room uc g one (some_fit, rest, few) =
      (some_fit, rest, omega (arith, few))

  pub take_group-GroupFits :
      (room next : ℕ) (ready : Ready) → AllFit ready → GroupFits room (take_group room next ready)
  unfolding take_group
  take_group-GroupFits zero next ready fit = (tt, fit, omega arith)
  take_group-GroupFits (suc room) next ready fit = elim (Option-cases (ready_at next ready)) [
    | inl missing ↦ rw (missing, take_group) (tt, fit, omega arith)
    | inr (uc, found) ↦
        rw (found, take_group)
          (filed-GroupFits uc.put_error room uc
            (take_group room (u64 (next + 1)) (remove next ready))
            (ready_at-AllFit next ready uc fit found)
            (take_group-GroupFits room (u64 (next + 1)) (remove next ready)
              (remove-AllFit next ready fit)))
  ]

  pub items_of-All : (ucs : List UploadCompletion) → AllFit ucs → All Fit (items_of ucs)
  unfolding items_of
  items_of-All [] fit = tt
  items_of-All (uc ∷ ucs) fit = (fit.0, items_of-All ucs fit.1)

pub length-items_of : (ucs : List UploadCompletion) → length (items_of ucs) ≡ length ucs
unfolding items_of
length-items_of [] = refl
length-items_of (uc ∷ ucs) = ap suc (length-items_of ucs)
