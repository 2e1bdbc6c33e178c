-- ===== src/Committer/Distinct.antt =====
-- buffer/producer.go: the map `ready` holds one batch under each ordinal.
use opendata_go.Base.{
  ==_iff, inr, sym, [], Option-cases, inl, false, Bool-cases, true, ◌∙◌, ◌+◌, subst, some, none,
  ◌<◌, ◌++◌, Bool, ◌∷◌, ◌≡◌, ◌≤◌, ◌==◌, List, ℕ, refl, ap, arith,
}
use mathlib.Core.List.{◌∷◌, Perm, Permᴰ, perm_middle, perm_append_comm}
use mathlib.Core.List.Perm
use mathlib.Core.Logic.{∥∥₁_elim}
use opendata_go.Committer.{UploadCompletion, Ready, ready_at, remove, place, gathered}
use opendata_go.Committer.Ready.{ready_at-remove}
use opendata_go.Committer.Numbered.{NumberedFrom, ready_at-ordinal}

abbrev pub one_if : Bool → ℕ
one_if true = 1
one_if false = 0

-- How many of the batches have the ordinal.
unfoldable pub count : ℕ → List UploadCompletion → ℕ
count k [] = 0
count k (uc ∷ ucs) = one_if (uc.eb.ordinal == k) + count k ucs

-- No ordinal is there twice.
abbrev pub Distinct : List UploadCompletion → Type 0
Distinct ucs = (k : ℕ) → count k ucs ≤ 1

pub count-append :
    (k : ℕ) (xs ys : List UploadCompletion) → count k (xs ++ ys) ≡ count k xs + count k ys
unfolding count
count-append k [] ys = omega arith
count-append k (x ∷ xs) ys = omega (arith, count-append k xs ys)

count-Permᴰ : (k : ℕ) {xs ys : List UploadCompletion} → Permᴰ xs ys → count k xs ≡ count k ys
unfolding count
count-Permᴰ k Permᴰ.nil = refl
count-Permᴰ k (Permᴰ.cons {a} {b} e d) =
    let same : one_if (a.eb.ordinal == k) ≡ one_if (b.eb.ordinal == k) =
      ap (λ x. one_if (x.eb.ordinal == k)) e in
    omega (arith, same, count-Permᴰ k d)
count-Permᴰ k (Permᴰ.swap {a} {b} {a'} {b'} e e') =
    let same : one_if (a.eb.ordinal == k) ≡ one_if (b'.eb.ordinal == k) =
      ap (λ x. one_if (x.eb.ordinal == k)) e in
    let same' : one_if (b.eb.ordinal == k) ≡ one_if (a'.eb.ordinal == k) =
      ap (λ x. one_if (x.eb.ordinal == k)) e' in
    omega (arith, same, same')
count-Permᴰ k (Permᴰ.trans d d') = count-Permᴰ k d ∙ count-Permᴰ k d'

ℕ_set : IsSet ℕ
ℕ_set = hlevel

pub count-Perm : (k : ℕ) {xs ys : List UploadCompletion} → Perm xs ys → count k xs ≡ count k ys
count-Perm k {xs} {ys} p = ∥∥₁_elim p (ℕ_set (count k xs) (count k ys)) (λ d. count-Permᴰ k d)

pub Distinct-Perm : {xs ys : List UploadCompletion} → Perm xs ys → Distinct ys → Distinct xs
Distinct-Perm {xs} {ys} p d k = omega (arith, count-Perm k p, d k)

pub one_if-own : (n : ℕ) → one_if (n == n) ≡ 1
one_if-own n = ground arith

ready_at-count :
    (k : ℕ) (ready : Ready) (uc : UploadCompletion) → ready_at k ready ≡ some uc → 1 ≤ count k ready
unfolding count
ready_at-count k ready uc found =
    let p = count-Perm k (ready_at-remove k ready uc found) in
    let own : one_if (uc.eb.ordinal == k) ≡ 1 = ground (arith, ready_at-ordinal k ready uc found) in
    omega (arith, p, own)

pub count-absent : (k : ℕ) (ready : Ready) → ready_at k ready ≡ none → count k ready ≡ 0
unfolding count ready_at
count-absent k [] e = refl
count-absent k (x ∷ ready) e = elim (Bool-cases (x.eb.ordinal == k)) [
  | inl here ↦ let bad : some x ≡ none = rw here at e in absurd (cc bad)
  | inr there ↦
      let later : ready_at k ready ≡ none = rw there at e in
      rw there (omega (arith, count-absent k ready later))
]

-- Another batch with the ordinal of one to come is not there.
absent :
    (uc : UploadCompletion) (ready : Ready) (future : List UploadCompletion)
    → Distinct (uc ∷ (ready ++ future))
    → ready_at uc.eb.ordinal ready ≡ none
unfolding count
absent uc ready future d = elim (Option-cases (ready_at uc.eb.ordinal ready)) [
  | inl missing ↦ missing
  | inr (x, found) ↦
      let k = uc.eb.ordinal in
      let twice = ready_at-count k ready x found in
      absurd (omega (arith, twice, d k, count-append k ready future, one_if-own k))
]

remove-absent : (k : ℕ) (ready : Ready) → ready_at k ready ≡ none → remove k ready ≡ ready
unfolding ready_at remove
remove-absent k [] e = refl
remove-absent k (x ∷ ready) e = elim (Bool-cases (x.eb.ordinal == k)) [
  | inl here ↦ let bad : some x ≡ none = rw here at e in absurd (cc bad)
  | inr there ↦
      let later : ready_at k ready ≡ none = rw there at e in
      rw there (ap (λ l. x ∷ l) (remove-absent k ready later))
]

-- Nothing is overwritten in the map.
pub gathered-Perm :
    (more : List UploadCompletion) (ready : Ready)
    → Distinct (more ++ ready)
    → Perm (gathered more ready) (more ++ ready)
unfolding gathered place
gathered-Perm [] ready d = Perm.rfl
gathered-Perm (uc ∷ more) ready d =
    let swapped = Perm.symm (perm_middle {a = uc} more ready) in
    let d' = Distinct-Perm (Perm.symm swapped) d in
    let one = Distinct-Perm (Perm.cons uc (perm_append_comm ready more)) d in
    let fresh = remove-absent uc.eb.ordinal ready (absent uc ready more one) in
    subst (λ l. Perm (gathered more (uc ∷ l)) (uc ∷ (more ++ ready))) (sym fresh)
      (Perm.trans (gathered-Perm more (uc ∷ ready) d') (perm_middle more ready))

NumberedFrom-count :
    (n k : ℕ) (ucs : List UploadCompletion) → NumberedFrom n ucs → k < n → count k ucs ≡ 0
unfolding count
NumberedFrom-count n k [] h less = refl
NumberedFrom-count n k (uc ∷ ucs) h less =
    let other : one_if (uc.eb.ordinal == k) ≡ 0 = ground (arith, h.0) in
    omega (arith, other, NumberedFrom-count (n + 1) k ucs h.1 (omega arith))

one_if-le : (b : Bool) → one_if b ≤ 1
one_if-le true = omega arith
one_if-le false = omega arith

pub NumberedFrom-Distinct :
    (n : ℕ) (ucs : List UploadCompletion) → NumberedFrom n ucs → Distinct ucs
unfolding count
NumberedFrom-Distinct n [] h k = omega arith
NumberedFrom-Distinct n (uc ∷ ucs) h k = elim (Bool-cases (uc.eb.ordinal == k)) [
  | inl here ↦
      let at_k : uc.eb.ordinal ≡ k = (==_iff _ _).0 here in
      rw here (omega (arith, NumberedFrom-count (n + 1) k ucs h.1 (omega (arith, h.0, at_k))))
  | inr there ↦ rw there (omega (arith, NumberedFrom-Distinct (n + 1) ucs h.1 k))
]
