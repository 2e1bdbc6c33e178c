-- ===== src/Store/S3/Texts.antt =====
-- objstore/s3.go: `strings.Contains` on the text of an error, and what it finds.
use opendata_go.Base.{
  Bool, true, false, [], ◌∷◌, ◌++◌, ◌≡◌, ◌↔◌, ◌⊎◌, inl, inr, ◌&&◌, ◌||◌, ◌==◌, ==_iff, ap, refl,
  ◌∙◌,
}
use opendata_go.Bytes.{Bytes}
use opendata_go.Store.S3.{
  S3Error, has_prefix, contains, is_missing, is_refused, no_such_key, status_code,
  precondition_failed_text, conditional_request_conflict, at_least_one,
}

abbrev pub Mentions : Bytes → Bytes → Type 0
Mentions text sub = (before after : Bytes) × (text ≡ before ++ (sub ++ after))

both : (a b : Bool) → (a && b) ≡ true → (a ≡ true) × (b ≡ true)
both true true h = (refl, refl)
both true false h = absurd (cc h)
both false b h = absurd (cc h)

either : (a b : Bool) → (a || b) ≡ true → (a ≡ true) ⊎ (b ≡ true)
either true b h = inl refl
either false b h = inr h

has_prefix_sound : (s sub : Bytes) → has_prefix s sub ≡ true → (after : Bytes) × (s ≡ sub ++ after)
unfolding has_prefix
has_prefix_sound s [] h = (s, refl)
has_prefix_sound [] (x ∷ sub) h = absurd (cc h)
has_prefix_sound (b ∷ s) (x ∷ sub) h =
    let (same, rest) = both (b == x) (has_prefix s sub) h in
    let (after, e) = has_prefix_sound s sub rest in (after, cc ((==_iff b x).0 same, e))

has_prefix-append : (sub after : Bytes) → has_prefix (sub ++ after) sub ≡ true
unfolding has_prefix
has_prefix-append [] [] = refl
has_prefix-append [] (x ∷ after) = refl
has_prefix-append (x ∷ sub) after = rw ((==_iff x x).1 refl, has_prefix-append sub after)

or_true : (a b : Bool) → b ≡ true → (a || b) ≡ true
or_true true b h = refl
or_true false b h = h

contains_sound : (s sub : Bytes) → contains s sub ≡ true → Mentions s sub
unfolding contains
contains_sound [] sub h = let (after, e) = has_prefix_sound [] sub h in ([], after, e)
contains_sound (b ∷ s) sub h = elim (either (has_prefix (b ∷ s) sub) (contains s sub) h) [
  | inl here ↦ let (after, e) = has_prefix_sound (b ∷ s) sub here in ([], after, e)
  | inr later ↦
      let (before, after, e) = contains_sound s sub later in (b ∷ before, after, ap (λ l. b ∷ l) e)
]

contains_prefix : (s sub : Bytes) → has_prefix s sub ≡ true → contains s sub ≡ true
unfolding contains
contains_prefix [] sub h = h
contains_prefix (b ∷ s) sub h = rw h

contains-append : (before sub after : Bytes) → contains (before ++ (sub ++ after)) sub ≡ true
unfolding contains
contains-append [] sub after = contains_prefix (sub ++ after) sub (has_prefix-append sub after)
contains-append (b ∷ before) sub after =
    or_true (has_prefix (b ∷ (before ++ (sub ++ after))) sub) _ (contains-append before sub after)

pub contains_iff : (s sub : Bytes) → (contains s sub ≡ true) ↔ Mentions s sub
contains_iff s sub = (
  contains_sound s sub,
  λ (before, after, e). ap (λ t. contains t sub) e ∙ contains-append before sub after,
)

or_iff : {A B : Type 0} (a b : Bool) → (a ≡ true) ↔ A → (b ≡ true) ↔ B → ((a || b) ≡ true) ↔ (A ⊎ B)
or_iff true b i j = (λ h. inl (i.0 h), λ h. refl)
or_iff false b i j = (λ h. inr (j.0 h), λ h. elim h [ inl a ↦ absurd (cc (i.1 a)) | inr x ↦ j.1 x ])

itself : (b : Bool) → (b ≡ true) ↔ (b ≡ true)
itself b = (λ h. h, λ h. h)

-- An error that is a `types.NoSuchKey`, or whose text names that code or the status 404.
abbrev pub SaysMissing : S3Error → Type 0
SaysMissing e =
    (e.is_no_such_key ≡ true)
    ⊎ (Mentions e.message no_such_key ⊎ Mentions e.message (status_code (b'4' ∷ b'0' ∷ b'4' ∷ [])))

-- An error whose text names the code or the status 412, or bears the message that goes with them.
abbrev pub SaysRefused : S3Error → Type 0
SaysRefused e =
    Mentions e.message precondition_failed_text
    ⊎ (Mentions e.message (status_code (b'4' ∷ b'1' ∷ b'2' ∷ [])) ⊎ Mentions e.message at_least_one)

abbrev pub SaysConflict : S3Error → Type 0
SaysConflict e = Mentions e.message conditional_request_conflict

pub is_missing_iff : (e : S3Error) → (is_missing e ≡ true) ↔ SaysMissing e
unfolding is_missing
is_missing_iff e = or_iff e.is_no_such_key _ (itself e.is_no_such_key) (
    or_iff (contains e.message no_such_key) _ (contains_iff e.message no_such_key)
      (contains_iff e.message (status_code (b'4' ∷ b'0' ∷ b'4' ∷ []))))

pub is_refused_iff : (e : S3Error) → (is_refused e ≡ true) ↔ (SaysRefused e ⊎ SaysConflict e)
unfolding is_refused
is_refused_iff e = (λ h. sorted (parts.0 h), λ h. parts.1 (unsorted h))
  where
    parts : (is_refused e ≡ true) ↔ (
        Mentions e.message precondition_failed_text
        ⊎ (Mentions e.message (status_code (b'4' ∷ b'1' ∷ b'2' ∷ []))
            ⊎ (Mentions e.message conditional_request_conflict ⊎ Mentions e.message at_least_one)))
    parts =
        or_iff (contains e.message precondition_failed_text) _
          (contains_iff e.message precondition_failed_text)
          (or_iff (contains e.message (status_code (b'4' ∷ b'1' ∷ b'2' ∷ []))) _
            (contains_iff e.message (status_code (b'4' ∷ b'1' ∷ b'2' ∷ [])))
            (or_iff (contains e.message conditional_request_conflict) _
              (contains_iff e.message conditional_request_conflict)
              (contains_iff e.message at_least_one)))

    sorted : {A B C D : Type 0} → A ⊎ (B ⊎ (C ⊎ D)) → (A ⊎ (B ⊎ D)) ⊎ C
    sorted (inl a) = inl (inl a)
    sorted (inr (inl b)) = inl (inr (inl b))
    sorted (inr (inr (inl c))) = inr c
    sorted (inr (inr (inr d))) = inl (inr (inr d))

    unsorted : {A B C D : Type 0} → (A ⊎ (B ⊎ D)) ⊎ C → A ⊎ (B ⊎ (C ⊎ D))
    unsorted (inl (inl a)) = inl a
    unsorted (inl (inr (inl b))) = inr (inl b)
    unsorted (inr c) = inr (inr (inl c))
    unsorted (inl (inr (inr d))) = inr (inr (inr d))
