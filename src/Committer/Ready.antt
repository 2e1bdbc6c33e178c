-- ===== src/Committer/Ready.antt =====
-- buffer/producer.go: taking a group out of the map of ready batches.
use opendata_go.Base.{
  none, Error, length-append, length, List, [], suc, ap, ◌∙◌, zero, arith, sym, ◌==◌, inr, inl, ◌+◌,
  Bool-cases, ◌++◌, some, Option-cases, ℕ, ◌∷◌, ◌≡◌,
}
use mathlib.Core.List.{Perm, perm_middle}
use mathlib.Core.List.Perm
use mathlib.Core.Option.{Option, some-injective}
use opendata_go.Committer.{u64, UploadCompletion, Ready, ready_at, remove, Group, filed, take_group}

pub ready_at-remove :
    (k : ℕ) (ready : Ready) (uc : UploadCompletion)
    → ready_at k ready ≡ some uc
    → Perm (uc ∷ remove k ready) ready
unfolding ready_at remove
ready_at-remove k [] uc e = absurd (cc e)
ready_at-remove k (x ∷ ready) uc e = elim (Bool-cases (x.eb.ordinal == k)) [
  | inl here ↦
      let same : x ≡ uc = some-injective _ _ (sym (rw here) ∙ e) in rw (here, same) Perm.rfl
  | inr there ↦
      let later : ready_at k ready ≡ some uc = sym (rw there) ∙ e in
      rw there (
        Perm.trans (Perm.swap x uc (remove k ready))
          (Perm.cons x (ready_at-remove k ready uc later)))
]

-- What a group holds, and what it leaves.
abbrev pub held : Group → List UploadCompletion
held g = g.group ++ (g.failed ++ g.ready)

held-filed :
    (x : Option Error) (uc : UploadCompletion) (g : Group)
    → Perm (held (filed x uc g)) (uc ∷ held g)
held-filed none uc g = Perm.rfl
held-filed (some e) uc g = perm_middle g.group (g.failed ++ g.ready)

-- Nothing is lost or made up when a group is taken.
pub take_group-Perm :
    (room next : ℕ) (ready : Ready) → Perm (held (take_group room next ready)) ready
unfolding take_group
take_group-Perm zero next ready = Perm.rfl
take_group-Perm (suc room) next ready = elim (Option-cases (ready_at next ready)) [
  | inl missing ↦ rw (missing, take_group) Perm.rfl
  | inr (uc, found) ↦
      rw (found, take_group)
        (Perm.trans
          (held-filed uc.put_error uc (take_group room (u64 (next + 1)) (remove next ready)))
          (Perm.trans (Perm.cons uc (take_group-Perm room (u64 (next + 1)) (remove next ready)))
            (ready_at-remove next ready uc found)))
]

pub length-remove :
    (k : ℕ) (ready : Ready) (uc : UploadCompletion)
    → ready_at k ready ≡ some uc
    → suc (length (remove k ready)) ≡ length ready
unfolding ready_at remove
length-remove k [] uc e = absurd (cc e)
length-remove k (x ∷ ready) uc e = elim (Bool-cases (x.eb.ordinal == k)) [
  | inl here ↦ rw here
  | inr there ↦
      let later : ready_at k ready ≡ some uc = sym (rw there) ∙ e in
      rw there (ap suc (length-remove k ready uc later))
]

length-filed :
    (x : Option Error) (uc : UploadCompletion) (g : Group)
    → length ((filed x uc g).group ++ (filed x uc g).failed) + length (filed x uc g).ready
      ≡ suc (length (g.group ++ g.failed) + length g.ready)
length-filed none uc g = omega arith
length-filed (some e) uc g =
    omega (arith, length-append g.group (uc ∷ g.failed), length-append g.group g.failed)

-- The batches of a group, of either kind, are gone from the map.
pub length-take_group :
    (room next : ℕ) (ready : Ready)
    → length ((take_group room next ready).group ++ (take_group room next ready).failed)
        + length (take_group room next ready).ready
      ≡ length ready
unfolding take_group
length-take_group zero next ready = omega arith
length-take_group (suc room) next ready = elim (Option-cases (ready_at next ready)) [
  | inl missing ↦ rw (missing, take_group) (omega arith)
  | inr (uc, found) ↦
      let g = take_group room (u64 (next + 1)) (remove next ready) in
      rw (found, take_group)
        (omega (
          arith,
          length-filed uc.put_error uc g,
          length-take_group room (u64 (next + 1)) (remove next ready),
          length-remove next ready uc found,
        ))
]
