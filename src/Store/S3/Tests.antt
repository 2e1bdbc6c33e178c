-- ===== src/Store/S3/Tests.antt =====
-- A service in memory, one bucket, whose tag of an object is its content.
use opendata_go.Base.{
  subst, ◌↔◌, err, not_found, precondition_failed, sym, ◌∙◌, ap, Bool, true, false, Option, none,
  some, [], ◌∷◌, ◌≡◌, ◌⊎◌, inl, inr, if◌then◌else◌, refl,
}
use mathlib.Core.Option.{some-injective}
use opendata_go.Bytes.{Bytes}
use opendata_go.Bytes.Decimal.{same, same_iff, same_refl}
use opendata_go.Store.{CasLaws, Version}
use opendata_go.Store.S3.{
  conditional_input, S3Error, GetObjectOutput, PutObjectInput, S3Client, precondition_failed_text,
  conditional_request_conflict, s3_store, get, put_if_match, contains, has_prefix,
}
use opendata_go.Store.S3.Texts.{SaysMissing, SaysRefused, SaysConflict, contains_iff}
use opendata_go.Store.S3.Service.{
  S3Code, missing, condition_failed, request_conflict, S3Object, S3Laws, Allows,
}
use opendata_go.Store.S3.Laws.{NoConflicts, s3_store-CasLaws}

abbrev Shelf : Type 0
Shelf = Bytes → Option Bytes

abbrev bucket : Bytes
bucket = b'b' ∷ []

abbrev refusal : S3Error
refusal = record { is_no_such_key = false; message = precondition_failed_text }

abbrev set : Bytes → Bytes → Shelf → Shelf
set key body shelf k = if same key k then some body else shelf k

abbrev object_of : Option Bytes → Option S3Object
object_of none = none
object_of (some b) = some (record { etag = b; body = b })

unfoldable get_answered : Option Bytes → S3Error ⊎ GetObjectOutput
get_answered none = inl (record { is_no_such_key = true; message = [] })
get_answered (some b) = inr (record { body = some b; etag = some b })

unfoldable allowed : Option Bytes → Option Bytes → Option Bytes → Bool
allowed (some star) match none = true
allowed (some star) match (some b) = false
allowed none (some tag) none = false
allowed none (some tag) (some b) = same b tag
allowed none none held = true

unfoldable put_answered : Bool → PutObjectInput → Shelf → Shelf × Option S3Error
put_answered true input shelf = (set input.key input.body shelf, none)
put_answered false input shelf = (shelf, some refusal)

abbrev client : S3Client Shelf
client = record {
  get_object = λ b key shelf. (shelf, get_answered (shelf key));
  put_object = λ input shelf.
      put_answered (allowed input.if_none_match input.if_match (shelf input.key)) input shelf;
  delete_object = λ b key shelf. (shelf, none);
}

allowed-Allows :
    (star match held : Option Bytes)
    → allowed star match held ≡ true
    → Allows star match (object_of held)
unfolding allowed
allowed-Allows (some s) match none h = refl
allowed-Allows (some s) match (some b) h = absurd (cc h)
allowed-Allows none (some tag) none h = absurd (cc h)
allowed-Allows none (some tag) (some b) h = (_, refl, (same_iff b tag).0 h)
allowed-Allows none none held h = tt

not-allowed :
    (star match held : Option Bytes)
    → allowed star match held ≡ false
    → Allows star match (object_of held)
    → ⊥
unfolding allowed
not-allowed (some s) match none h a = absurd (cc h)
not-allowed (some s) match (some b) h a = absurd (cc a)
not-allowed none (some tag) none h (o, e, t) = absurd (cc e)
not-allowed none (some tag) (some b) h (o, e, t) =
    let tags : b ≡ tag = ap (λ (y : S3Object). y.etag) (some-injective _ _ e) ∙ t in
    absurd (cc (h, (same_iff b tag).1 tags))
not-allowed none none held h a = absurd (cc h)

abbrev held : Shelf → Bytes → Option S3Object
held shelf key = object_of (shelf key)

reads_lem :
    (x : Option Bytes) (key : Bytes) (s t : Shelf) (out : GetObjectOutput)
    → s key ≡ x
    → ◌≡◌ {A = Shelf × (S3Error ⊎ GetObjectOutput)} (s, get_answered x) (t, inr out)
    → (o : S3Object) × (held s key ≡ some o)
      × (out.etag ≡ some o.etag)
      × ((b : Bytes) → out.body ≡ some b → b ≡ o.body)
      × ((k : Bytes) → held t k ≡ held s k)
unfolding get_answered
reads_lem none key s t out is_x h =
    absurd (cc (ap (λ (y : Shelf × (S3Error ⊎ GetObjectOutput)). y.1) h))
reads_lem (some b) key s t out is_x h =
    let answer = ap (λ (y : Shelf × (S3Error ⊎ GetObjectOutput)). y.1) h in
    let out_is : record { body = some b; etag = some b } ≡ out = cc answer in
    (
      record { etag = b; body = b },
      ap object_of is_x,
      sym (ap (λ (y : GetObjectOutput). y.etag) out_is),
      λ b' e. some-injective _ _ (sym e ∙ sym (ap (λ (y : GetObjectOutput). y.body) out_is)),
      λ k.
          ap (λ (u : Shelf). held u k)
            (sym (ap (λ (y : Shelf × (S3Error ⊎ GetObjectOutput)). y.0) h)),
    )

misses_lem :
    (x : Option Bytes) (key : Bytes) (s t : Shelf) (e : S3Error)
    → s key ≡ x
    → ◌≡◌ {A = Shelf × (S3Error ⊎ GetObjectOutput)} (s, get_answered x) (t, inl e)
    → (held s key ≡ none) × ((k : Bytes) → held t k ≡ held s k)
unfolding get_answered
misses_lem none key s t e is_x h = (
  ap object_of is_x,
  λ k. ap (λ (u : Shelf). held u k) (sym (ap (λ (y : Shelf × (S3Error ⊎ GetObjectOutput)). y.0) h)),
)
misses_lem (some b) key s t e is_x h =
    absurd (cc (ap (λ (y : Shelf × (S3Error ⊎ GetObjectOutput)). y.1) h))

writes_lem :
    (b : Bool) (input : PutObjectInput) (s t : Shelf)
    → allowed input.if_none_match input.if_match (s input.key) ≡ b
    → put_answered b input s ≡ (t, none)
    → Allows input.if_none_match input.if_match (held s input.key)
      × (o : S3Object) × (held t input.key ≡ some o)
      × (o.body ≡ input.body)
unfolding put_answered
writes_lem true input s t is_b h = (
  allowed-Allows input.if_none_match input.if_match (s input.key) is_b,
  record { etag = input.body; body = input.body },
  ap (λ (u : Shelf). held u input.key) (sym (ap (λ (y : Shelf × Option S3Error). y.0) h))
      ∙ ap object_of (own input.key input.body (s input.key)),
  refl,
)
  where
    own : (key b' : Bytes) (old : Option Bytes) → (if same key key then some b' else old) ≡ some b'
    own key b' old = rw (same_refl key)
writes_lem false input s t is_b h = absurd (cc (ap (λ (y : Shelf × Option S3Error). y.1) h))

refuses_lem :
    (b : Bool) (input : PutObjectInput) (s t : Shelf) (e : S3Error)
    → allowed input.if_none_match input.if_match (s input.key) ≡ b
    → put_answered b input s ≡ (t, some e)
    → (Allows input.if_none_match input.if_match (held s input.key) → ⊥)
      × ((k : Bytes) → held t k ≡ held s k)
unfolding put_answered
refuses_lem true input s t e is_b h = absurd (cc (ap (λ (y : Shelf × Option S3Error). y.1) h))
refuses_lem false input s t e is_b h = (
  not-allowed input.if_none_match input.if_match (s input.key) is_b,
  λ k. ap (λ (u : Shelf). held u k) (sym (ap (λ (y : Shelf × Option S3Error). y.0) h)),
)

body_is_tag : (x : Option Bytes) (o : S3Object) → object_of x ≡ some o → o.etag ≡ o.body
body_is_tag none o h = absurd (cc h)
body_is_tag (some b) o h =
    let o_is = some-injective _ _ h in
    sym (ap (λ (y : S3Object). y.etag) o_is) ∙ ap (λ (y : S3Object). y.body) o_is

-- The client's two errors.
abbrev code : S3Error → S3Code
code e = if e.is_no_such_key then missing else condition_failed

get_texts_lem :
    (x : Option Bytes) (s t : Shelf) (e : S3Error)
    → ◌≡◌ {A = Shelf × (S3Error ⊎ GetObjectOutput)} (s, get_answered x) (t, inl e)
    → SaysMissing e ↔ (code e ≡ missing)
unfolding get_answered
get_texts_lem none s t e h =
    let e_is : ◌≡◌ {A = S3Error} (record { is_no_such_key = true; message = [] }) e =
      cc (ap (λ (y : Shelf × (S3Error ⊎ GetObjectOutput)). y.1) h) in
    subst (λ y. SaysMissing y ↔ (code y ≡ missing)) e_is (λ says. refl, λ is_404. inl refl)
get_texts_lem (some b) s t e h =
    absurd (cc (ap (λ (y : Shelf × (S3Error ⊎ GetObjectOutput)). y.1) h))

refusal-SaysRefused : SaysRefused refusal
refusal-SaysRefused = inl ([], [], refl)

refusal-no_conflict : SaysConflict refusal → ⊥
unfolding contains has_prefix
refusal-no_conflict says =
    let found = (contains_iff refusal.message conditional_request_conflict).1 says in
    absurd (cc found)

put_texts_lem :
    (b : Bool) (input : PutObjectInput) (s t : Shelf) (e : S3Error)
    → put_answered b input s ≡ (t, some e)
    → refusal ≡ e
unfolding put_answered
put_texts_lem true input s t e h = absurd (cc (ap (λ (y : Shelf × Option S3Error). y.1) h))
put_texts_lem false input s t e h = some-injective _ _ (ap (λ (y : Shelf × Option S3Error). y.1) h)

refusal_texts :
    (SaysRefused refusal ↔ (code refusal ≡ condition_failed))
    × (SaysConflict refusal ↔ (code refusal ≡ request_conflict))
refusal_texts = (
  (λ says. refl, λ is_412. refusal-SaysRefused),
  (λ says. absurd (refusal-no_conflict says), λ is_409. absurd (cc is_409)),
)

client-S3Laws : S3Laws client bucket
client-S3Laws = record {
  code = code;
  get_texts = λ key s t e h. get_texts_lem (s key) s t e h;
  put_texts = λ input s t e h.
      subst
        (λ y.
          (SaysRefused y ↔ (code y ≡ condition_failed))
          × (SaysConflict y ↔ (code y ≡ request_conflict)))
        (put_texts_lem (allowed input.if_none_match input.if_match (s input.key)) input s t e h)
        refusal_texts;
  held = held;
  Others = λ s t. Unit {0};
  reads = λ key s t out h. reads_lem (s key) key s t out refl h;
  misses = λ key s t e h missing. misses_lem (s key) key s t e refl h;
  writes = λ input s t b h.
      writes_lem (allowed input.if_none_match input.if_match (s input.key)) input s t refl h;
  refuses = λ input s t e b h r.
      refuses_lem (allowed input.if_none_match input.if_match (s input.key)) input s t e refl h;
  identifies = λ key s t o o' others here there tags.
      sym (body_is_tag (s key) o here) ∙ tags ∙ body_is_tag (t key) o' there;
}

no_conflicts : NoConflicts client bucket client-S3Laws
unfolding client-S3Laws
no_conflicts input s t e h is_409 =
    let e_is =
      put_texts_lem (allowed input.if_none_match input.if_match (s input.key)) input s t e h in
    let bad : condition_failed ≡ request_conflict = ap code e_is ∙ is_409 in cc bad

s3_store-CasLaws_example :
    CasLaws (s3_store client bucket)
    × ((p : Bytes) (s t : Shelf) (e : S3Error)
        → client.get_object bucket p s ≡ (t, inl e)
        → client-S3Laws.code e ≡ missing
        → (get client bucket p s).1 ≡ err not_found)
    × ((p b : Bytes) (v : Option Version) (s t : Shelf) (e : S3Error)
        → client.put_object (conditional_input bucket p b v) s ≡ (t, some e)
        → client-S3Laws.code e ≡ condition_failed
        → (put_if_match client bucket p b v s).1 ≡ err precondition_failed)
s3_store-CasLaws_example = s3_store-CasLaws client bucket client-S3Laws no_conflicts
