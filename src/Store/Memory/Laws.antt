-- ===== src/Store/Memory/Laws.antt =====
-- objstore/memory.go: `InMemory` and the contract of the interface, among clients that do not delete.
use opendata_go.Base.{
  ◌+◌, if◌then◌else◌, ◌⊎◌, ok-injective, Option-cases, ◌∙◌, ◌≢◌, not_found, precondition_failed, ap,
  err, ok, inr, sym, subst, ◌↔◌, inl, refl, none, ◌≤◌, true, arith, Bool-cases, Option, ◌≡◌, some,
  ℕ,
}
use mathlib.Core.Option.{some-injective}
use opendata_go.Bytes.{Bytes}
use opendata_go.Bytes.Decimal.{decimal, decimal-injective, same, same_iff, same_refl}
use opendata_go.Store.{Version, GetResult, CasLaws, version_of}
use opendata_go.Store.Memory.{
  MemObject, InMemory, update, version_etag, get, put, put_if_match, written, matches, in_memory,
}

-- What a client sees of an object.
abbrev pub seen : Option MemObject → Option GetResult
seen none = none
seen (some obj) = some (record { bytes = obj.bytes; version = version_etag obj.version })

abbrev pub view : InMemory → Bytes → Option GetResult
view m p = seen (m p)

-- What other clients do that write and never delete.
pub data Writes (s : InMemory) : InMemory → Type 0 where
  idle : Writes s s
  then_put : {t : InMemory} (p b : Bytes) → Writes s t → Writes s (put p b t).0
  then_put_if_match :
      {t : InMemory} (p b : Bytes) (v : Option Version)
      → Writes s t
      → Writes s (put_if_match p b v t).0

-- An object of `s` that is still there, and is unchanged if its version is.
abbrev Keeps : MemObject → Option MemObject → Type 0
Keeps o none = ⊥
Keeps o (some o') = (o.version ≤ o'.version) × (o.version ≡ o'.version → o.bytes ≡ o'.bytes)

Keeps-refl : (o : MemObject) → Keeps o (some o)
Keeps-refl o = (omega arith, λ _. refl)

Keeps-written :
    (o : MemObject) (b : Bytes) (x : Option MemObject) → Keeps o x → Keeps o (some (written b x))
Keeps-written o b none k = absurd k
Keeps-written o b (some o') k = (omega (arith, k.0), λ e. absurd (omega (arith, k.0, e)))

Keeps-update :
    (m : InMemory) (p b q : Bytes) (o : MemObject)
    → Keeps o (m q)
    → Keeps o (update m p (some (written b (m p))) q)
Keeps-update m p b q o k = elim (Bool-cases (same p q)) [
  | inl e ↦ rw e (Keeps-written o b (m p) (subst (λ x. Keeps o (m x)) (sym ((same_iff p q).0 e)) k))
  | inr e ↦ rw e k
]

Keeps-put :
    (p b q : Bytes) (o : MemObject) (t : InMemory) → Keeps o (t q) → Keeps o ((put p b t).0 q)
unfolding put
Keeps-put p b q o t k = Keeps-update t p b q o k

Keeps-put_if_match :
    (p b : Bytes) (v : Option Version) (q : Bytes) (o : MemObject) (t : InMemory)
    → Keeps o (t q)
    → Keeps o ((put_if_match p b v t).0 q)
unfolding put_if_match
Keeps-put_if_match p b v q o t k = elim (Bool-cases (matches (t p) v)) [
  | inl e ↦ rw e (Keeps-update t p b q o k)
  | inr e ↦ rw e k
]

-- Writes leave every object in place; its version never falls, and names its bytes.
pub Writes-Keeps :
    {s t : InMemory} (q : Bytes) (o : MemObject) → Writes s t → s q ≡ some o → Keeps o (t q)
Writes-Keeps q o idle e = rw e (Keeps-refl o)
Writes-Keeps q o (then_put {t} p b w) e = Keeps-put p b q o t (Writes-Keeps q o w e)
Writes-Keeps q o (then_put_if_match {t} p b v w) e =
    Keeps-put_if_match p b v q o t (Writes-Keeps q o w e)

-- `PutIfMatch` goes ahead exactly if the version that it is given is the one that `Get` shows.
pub matches_iff :
    (x : Option MemObject) (v : Option Version) → (matches x v ≡ true) ↔ (version_of (seen x) ≡ v)
unfolding matches version_etag
matches_iff none none = (λ _. refl, λ _. refl)
matches_iff none (some v) = (λ h. cc, λ h. cc)
matches_iff (some o) none = (λ h. cc, λ h. cc)
matches_iff (some o) (some v) = (
  λ h. ap (λ t. some (record { etag = t })) (sym ((same_iff v.etag (decimal o.version)).0 h)),
  λ h. (same_iff v.etag (decimal o.version)).1 (cc h),
)

version_etag-injective : (m n : ℕ) → version_etag m ≡ version_etag n → m ≡ n
unfolding version_etag
version_etag-injective m n h = decimal-injective m n (ap (λ v. v.etag) h)

pub get_found_lem :
    (p : Bytes) (s t : InMemory) (r : GetResult)
    → get p s ≡ (t, ok r)
    → (view s p ≡ some r) × ((q : Bytes) → view t q ≡ view s q)
unfolding get
get_found_lem p s t r e = elim (Option-cases (s p)) [
  | inl n ↦ let bad = rw (n, get) at e in absurd (cc bad)
  | inr (o, n) ↦
      let good = rw (n, get) at e in
      (
        rw n (ap some (ok-injective (ap (λ x. x.1) good))),
        λ q. ap (λ m. view m q) (sym (ap (λ x. x.0) good)),
      )
]

pub get_missing_lem :
    (p : Bytes) (s t : InMemory)
    → get p s ≡ (t, err not_found)
    → (view s p ≡ none) × ((q : Bytes) → view t q ≡ view s q)
unfolding get
get_missing_lem p s t e = elim (Option-cases (s p)) [
  | inl n ↦
      let good = rw (n, get) at e in (rw n, λ q. ap (λ m. view m q) (sym (ap (λ x. x.0) good)))
  | inr (o, n) ↦ let bad = rw (n, get) at e in absurd (cc bad)
]

written-bytes : (b : Bytes) (x : Option MemObject) → (written b x).bytes ≡ b
written-bytes b none = refl
written-bytes b (some o) = refl

pub cas_ok_lem :
    (p b : Bytes) (v : Option Version) (s t : InMemory)
    → put_if_match p b v s ≡ (t, ok tt)
    → (version_of (view s p) ≡ v) × (r : GetResult) × (view t p ≡ some r) × (r.bytes ≡ b)
unfolding put_if_match
cas_ok_lem p b v s t e = elim (Bool-cases (matches (s p) v)) [
  | inl m ↦
      let good = rw m at e in
      let now : t p ≡ some (written b (s p)) = ap (λ x. x.0 p) (sym good) ∙ rw (same_refl p) in
      (
        (matches_iff (s p) v).0 m,
        record {
          bytes = (written b (s p)).bytes;
          version = version_etag (written b (s p)).version;
        },
        ap seen now,
        written-bytes b (s p),
      )
  | inr m ↦ let bad = rw m at e in absurd (cc bad)
]

pub cas_conflict_lem :
    (p b : Bytes) (v : Option Version) (s t : InMemory)
    → put_if_match p b v s ≡ (t, err precondition_failed)
    → (version_of (view s p) ≢ v) × ((q : Bytes) → view t q ≡ view s q)
unfolding put_if_match
cas_conflict_lem p b v s t e = elim (Bool-cases (matches (s p) v)) [
  | inl m ↦ let bad = rw m at e in absurd (cc bad)
  | inr m ↦
      let good = rw m at e in
      (λ h. cc ((matches_iff (s p) v).1 h, m), λ q. ap (λ x. view x q) (sym (ap (λ x. x.0) good)))
]

pub pinned_lem :
    (p : Bytes) (s t : InMemory) (r r' : GetResult)
    → Writes s t
    → view s p ≡ some r
    → view t p ≡ some r'
    → r.version ≡ r'.version
    → r.bytes ≡ r'.bytes
pinned_lem p s t r r' w e e' h = elim (Option-cases (s p)) [
  | inl n ↦ let bad = rw n at e in absurd (cc bad)
  | inr (o, n) ↦ elim (Option-cases (t p)) [
    | inl n' ↦ let bad = rw n' at e' in absurd (cc bad)
    | inr (o', n') ↦
        let kept : Keeps o (some o') = subst (Keeps o) n' (Writes-Keeps p o w n) in
        let first = some-injective _ _ (rw n at e) in
        let second = some-injective _ _ (rw n' at e') in
        let etags : version_etag o.version ≡ version_etag o'.version =
          ap (λ x. x.version) first ∙ h ∙ sym (ap (λ x. x.version) second) in
        sym (ap (λ x. x.bytes) first)
        ∙ kept.1 (version_etag-injective o.version o'.version etags)
        ∙ ap (λ x. x.bytes) second
  ]
]

-- The in-memory store keeps the optimistic-concurrency contract against clients that only write.
unfoldable pub in_memory-CasLaws : CasLaws in_memory
in_memory-CasLaws = record {
  view = view;
  Others = Writes;
  get_found = get_found_lem;
  get_missing = get_missing_lem;
  cas_ok = cas_ok_lem;
  cas_conflict = cas_conflict_lem;
  pinned = pinned_lem;
}

written-version :
    (b : Bytes) (x : Option MemObject)
    → some (version_etag (written b x).version) ≢ version_of (seen x)
written-version b none h = cc
written-version b (some o) h =
    absurd (omega (arith, version_etag-injective (o.version + 1) o.version (some-injective _ _ h)))

seen-update :
    (m : InMemory) (p q : Bytes) (o : MemObject)
    → view (update m p (some o)) q ≡ (if same p q then seen (some o) else view m q)
seen-update m p q o = elim (Bool-cases (same p q)) [ inl e ↦ rw e | inr e ↦ rw e ]

-- Exactly when `PutIfMatch` writes: if the version that it is given is the one that `Get` shows
-- (none for a missing object). Then `Get` shows the written bytes under another version, and every
-- other path is as before; otherwise the call reports the failed precondition and changes nothing.
pub put_if_match_lem :
    (p b : Bytes) (v : Option Version) (m : InMemory)
    → ((version_of (view m p) ≡ v)
        × ((put_if_match p b v m).1 ≡ ok tt)
        × (r : GetResult) × (view (put_if_match p b v m).0 p ≡ some r)
        × (r.bytes ≡ b)
        × (some r.version ≢ v)
        × ((q : Bytes) → view (put_if_match p b v m).0 q ≡ (if same p q then some r else view m q)))
      ⊎ ((version_of (view m p) ≢ v) × (put_if_match p b v m ≡ (m, err precondition_failed)))
unfolding put_if_match
put_if_match_lem p b v m = elim (Bool-cases (matches (m p) v)) [
  | inl e ↦
      let fits = (matches_iff (m p) v).0 e in
      inl (
        fits,
        rw e,
        record {
          bytes = (written b (m p)).bytes;
          version = version_etag (written b (m p)).version;
        },
        rw (e, same_refl p),
        written-bytes b (m p),
        subst (λ x. some (version_etag (written b (m p)).version) ≢ x) fits
            (written-version b (m p)),
        λ q. rw e (seen-update m p q (written b (m p))),
      )
  | inr e ↦ inr (λ h. cc ((matches_iff (m p) v).1 h, e), rw e)
]
