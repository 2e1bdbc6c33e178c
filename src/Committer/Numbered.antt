-- ===== src/Committer/Numbered.antt =====
-- buffer/producer.go: the map `ready` against the batches in the order of their ordinals.
use opendata_go.Base.{
  zero, inr, ==_iff, inl, Option-cases, subst, ◌==◌, suc, sym, Bool-cases, none, ap, ◌^◌, arith,
  ◌∙◌, [], ◌<◌, refl, some, ◌++◌, ◌≤◌, ◌+◌, ◌≡◌, ◌∷◌, length, List, ℕ, Error,
}
use mathlib.Core.List.{[], ◌∷◌, Perm, Mem, mem-cons_self, eq-or-mem_of_mem-cons, not-mem-nil}
use mathlib.Core.List.Perm
use mathlib.Core.Option.{some, Option, some-injective}
use mathlib.Core.Logic.Or
use native.Mathlib.Bridge.{le_prop}
use opendata_go.Committer.{u64, UploadCompletion, Ready, ready_at, remove, Group, filed, take_group}
use opendata_go.Committer.Ready.{ready_at-remove}
use opendata_go.Committer.Order.{uploaded, kept_if}

-- The batches have the ordinals from `n` on.
abbrev pub NumberedFrom : ℕ → List UploadCompletion → Type 0
NumberedFrom n [] = Unit {0}
NumberedFrom n (uc ∷ ucs) = (uc.eb.ordinal ≡ n) × NumberedFrom (n + 1) ucs

UploadCompletion-set : IsSet UploadCompletion
UploadCompletion-set = hlevel

NumberedFrom-mem :
    (n : ℕ) (ucs : List UploadCompletion) (uc : UploadCompletion)
    → NumberedFrom n ucs
    → Mem uc ucs
    → n ≤ uc.eb.ordinal
NumberedFrom-mem n [] uc h m = absurd (not-mem-nil m)
NumberedFrom-mem n (x ∷ ucs) uc h m =
    Or.elim le_prop (eq-or-mem_of_mem-cons m)
      (λ e.
        let same : uc.eb.ordinal ≡ x.eb.ordinal = ap (λ y. y.eb.ordinal) e in
        omega (arith, h.0, same))
      (λ later. let above = NumberedFrom-mem (n + 1) ucs uc h.1 later in omega (arith, above))

pub ready_at-ordinal :
    (k : ℕ) (ready : Ready) (uc : UploadCompletion) → ready_at k ready ≡ some uc → uc.eb.ordinal ≡ k
unfolding ready_at
ready_at-ordinal k [] uc e = absurd (cc e)
ready_at-ordinal k (x ∷ ready) uc e = elim (Bool-cases (x.eb.ordinal == k)) [
  | inl here ↦
      let same : x ≡ uc = some-injective _ _ (sym (rw here) ∙ e) in
      ap (λ y. y.eb.ordinal) (sym same) ∙ (==_iff _ _).0 here
  | inr there ↦
      let later : ready_at k ready ≡ some uc = sym (rw there) ∙ e in
      ready_at-ordinal k ready uc later
]

-- The ready batch under the next ordinal is the head of what is to come.
head_is :
    (next : ℕ) (ready : Ready) (future rest : List UploadCompletion) (uc : UploadCompletion)
    → ready_at next ready ≡ some uc
    → NumberedFrom next rest
    → Perm (ready ++ future) rest
    → (rest' : List UploadCompletion) × (rest ≡ uc ∷ rest')
      × Perm (remove next ready ++ future) rest'
head_is next ready future [] uc found h p =
    let q = Perm.trans (Perm.append_right future (ready_at-remove next ready uc found)) p in
    absurd (not-mem-nil ((Perm.mem_iff q).0 mem-cons_self))
head_is next ready future (x ∷ rest) uc found h p =
    let q = Perm.trans (Perm.append_right future (ready_at-remove next ready uc found)) p in
    let same : uc ≡ x =
      Or.elim (UploadCompletion-set uc x) (eq-or-mem_of_mem-cons ((Perm.mem_iff q).0 mem-cons_self))
        (λ e. e)
        (λ later.
          let above = NumberedFrom-mem (next + 1) rest uc h.1 later in
          absurd (omega (arith, above, ready_at-ordinal next ready uc found))) in
    (
      rest,
      ap (λ y. y ∷ rest) (sym same),
      Perm.cons_inv
          (subst (λ y. Perm (uc ∷ (remove next ready ++ future)) (y ∷ rest)) (sym same) q),
    )

-- A group is the first part of what is to come, and leaves the rest to come.
pub record Taken (next : ℕ) (g : Group) (future rest : List UploadCompletion) : Type 0 where
  pub first : List UploadCompletion
  pub later : List UploadCompletion
  pub splits : rest ≡ first ++ later
  pub group_is : g.group ≡ uploaded first
  pub next_is : g.next ≡ next + length first
  pub later_numbered : NumberedFrom g.next later
  pub still_to_come : Perm (g.ready ++ future) later

uploaded-cons :
    (uc : UploadCompletion) (ucs : List UploadCompletion)
    → uploaded (uc ∷ ucs) ≡ kept_if uc.put_error uc (uploaded ucs)
unfolding uploaded
uploaded-cons uc ucs = refl

filed-group :
    (x : Option Error) (uc : UploadCompletion) (g : Group)
    → (filed x uc g).group ≡ kept_if x uc g.group
filed-group none uc g = refl
filed-group (some e) uc g = refl

Taken-filed :
    (x : Option Error) (uc : UploadCompletion) (next : ℕ) (g : Group)
    (future rest rest' : List UploadCompletion)
    → uc.put_error ≡ x
    → rest ≡ uc ∷ rest'
    → Taken (next + 1) g future rest'
    → Taken next (filed x uc g) future rest
Taken-filed none uc next g future rest rest' e splits t = record {
  first = uc ∷ t.first;
  later = t.later;
  splits = splits ∙ ap (λ l. uc ∷ l) t.splits;
  group_is =
      ap (λ l. uc ∷ l) t.group_is
      ∙ sym (uploaded-cons uc t.first ∙ ap (λ y. kept_if y uc (uploaded t.first)) e);
  next_is = omega (arith, t.next_is);
  later_numbered = t.later_numbered;
  still_to_come = t.still_to_come;
}
Taken-filed (some x) uc next g future rest rest' e splits t = record {
  first = uc ∷ t.first;
  later = t.later;
  splits = splits ∙ ap (λ l. uc ∷ l) t.splits;
  group_is =
      t.group_is ∙ sym (uploaded-cons uc t.first ∙ ap (λ y. kept_if y uc (uploaded t.first)) e);
  next_is = omega (arith, t.next_is);
  later_numbered = t.later_numbered;
  still_to_come = t.still_to_come;
}

nothing-Taken :
    (next : ℕ) (ready : Ready) (future rest : List UploadCompletion)
    → NumberedFrom next rest
    → Perm (ready ++ future) rest
    → Taken next (record { group = []; failed = []; next = next; ready = ready }) future rest
unfolding uploaded
nothing-Taken next ready future rest h p = record {
  first = [];
  later = rest;
  splits = refl;
  group_is = refl;
  next_is = omega arith;
  later_numbered = h;
  still_to_come = p;
}

pub take_group-Taken :
    (room next : ℕ) (ready : Ready) (future rest : List UploadCompletion)
    → next + length rest < 2 ^ 64
    → NumberedFrom next rest
    → Perm (ready ++ future) rest
    → Taken next (take_group room next ready) future rest
unfolding take_group
take_group-Taken zero next ready future rest small h p = nothing-Taken next ready future rest h p
take_group-Taken (suc room) next ready future rest small h p =
    elim (Option-cases (ready_at next ready)) [
      | inl missing ↦ rw (missing, take_group) (nothing-Taken next ready future rest h p)
      | inr (uc, found) ↦
          let (rest', splits, p') = head_is next ready future rest uc found h p in
          let numbered = subst (NumberedFrom next) splits h in
          let one : u64 (next + 1) ≡ next + 1 = omega (arith, small, ap length splits) in
          let t =
            take_group-Taken room (next + 1) (remove next ready) future rest'
              (omega (arith, small, ap length splits)) numbered.1 p' in
          rw (found, one, take_group)
            (Taken-filed uc.put_error uc next (take_group room (next + 1) (remove next ready))
              future rest rest' refl splits t)
    ]
