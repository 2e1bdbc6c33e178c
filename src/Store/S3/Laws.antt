-- ===== src/Store/S3/Laws.antt =====
-- objstore/s3.go: `S3` and the contract of the interface, over a service that keeps S3's promises.
use opendata_go.Base.{
  if_then, Error, subst, ok-injective, sym, refl, ◌∙◌, ap, Bool, true, false, Option, none, some,
  ◌≡◌, ◌≢◌, ◌⊎◌, inl, inr, if◌then◌else◌, Outcome, ok, err, not_found, precondition_failed,
  transport,
}
use mathlib.Core.Option.{some-injective}
use opendata_go.Bytes.{Bytes}
use opendata_go.Store.{Version, GetResult, CasLaws, version_of}
use opendata_go.Store.S3.{
  S3Error, GetObjectOutput, PutObjectInput, S3Client, is_missing, is_refused, etag_or_empty,
  read_answer, get_answer, conditional_answer, conditional_input, get, put_if_match, s3_store,
}
use opendata_go.Store.S3.Texts.{SaysRefused, SaysConflict, is_missing_iff, is_refused_iff}
use opendata_go.Store.S3.Service.{
  missing, condition_failed, request_conflict, S3Object, Allows, S3Laws, seen, Allows-seen,
  seen-Allows,
}

chosen :
    {A : Type 0} (b : Bool) (e : Error)
    → e ≢ transport
    → ◌≡◌ {A = Outcome A} (if b then err e else err transport) (err e)
    → b ≡ true
chosen true e other h = refl
chosen false e other h = absurd (other (cc h))

never_ok : {A : Type 0} (b : Bool) (e : Error) (a : A) → (if b then err e else err transport) ≢ ok a
never_ok true e a h = cc h
never_ok false e a h = cc h

read_answer-ok :
    (body etag : Option Bytes) (r : GetResult)
    → read_answer body etag ≡ ok r
    → (b : Bytes) × (body ≡ some b)
      × (r ≡ record { bytes = b; version = record { etag = etag_or_empty etag } })
unfolding read_answer
read_answer-ok none etag r h = absurd (cc h)
read_answer-ok (some b) etag r h = (b, refl, sym (ok-injective h))

read_answer-found : (body etag : Option Bytes) → read_answer body etag ≢ err not_found
unfolding read_answer
read_answer-found none etag h = cc h
read_answer-found (some b) etag h = cc h

-- No write is answered with a conflicting request, 409, of which S3 does not say that the condition of
-- the write was false.
abbrev pub NoConflicts :
    {S : Type 0} (client : S3Client S) (bucket : Bytes) → S3Laws client bucket → Type 0
NoConflicts {S} client bucket laws =
    (input : PutObjectInput) (s t : S) (e : S3Error)
    → client.put_object input s ≡ (t, some e)
    → laws.code e ≢ request_conflict

module _ {S : Type 0} (client : S3Client S) (bucket : Bytes) (laws : S3Laws client bucket)
    (quiet : NoConflicts client bucket laws) where
  conditional_input-bucket :
      (p b : Bytes) (v : Option Version) → (conditional_input bucket p b v).bucket ≡ bucket
  conditional_input-bucket p b none = refl
  conditional_input-bucket p b (some v) = refl

  conditional_input-key :
      (p b : Bytes) (v : Option Version) → (conditional_input bucket p b v).key ≡ p
  conditional_input-key p b none = refl
  conditional_input-key p b (some v) = refl

  found :
      (p : Bytes) (s t : S) (r : GetResult) (x : S × (S3Error ⊎ GetObjectOutput))
      → client.get_object bucket p s ≡ x
      → ◌≡◌ {A = S × Outcome GetResult} (x.0, get_answer x.1) (t, ok r)
      → (seen (laws.held s p) ≡ some r)
        × ((q : Bytes) → seen (laws.held t q) ≡ seen (laws.held s q))
  unfolding get_answer
  found p s t r (t', inl e) is_x h =
      absurd (never_ok (is_missing e) not_found r (ap (λ (y : S × Outcome GetResult). y.1) h))
  found p s t r (t', inr out) is_x h =
      let (o, held_here, tagged, whole, same) = laws.reads p s t' out is_x in
      let (b, body_is, r_is) =
        read_answer-ok out.body out.etag r (ap (λ (y : S × Outcome GetResult). y.1) h) in
      (
        ap seen held_here
            ∙ ap some (
                ap (λ (x : Bytes). record { bytes = x; version = record { etag = o.etag } })
                  (sym (whole b body_is))
                ∙ ap
                    (λ (y : Option Bytes). record {
                      bytes = b;
                      version = record { etag = etag_or_empty y };
                    })
                    (sym tagged)
                ∙ sym r_is),
        λ q.
            ap (λ (u : S). seen (laws.held u q)) (sym (ap (λ (y : S × Outcome GetResult). y.0) h))
            ∙ ap seen (same q),
      )

  missed :
      (p : Bytes) (s t : S) (x : S × (S3Error ⊎ GetObjectOutput))
      → client.get_object bucket p s ≡ x
      → ◌≡◌ {A = S × Outcome GetResult} (x.0, get_answer x.1) (t, err not_found)
      → (seen (laws.held s p) ≡ none) × ((q : Bytes) → seen (laws.held t q) ≡ seen (laws.held s q))
  unfolding get_answer
  missed p s t (t', inl e) is_x h =
      let says =
        chosen (is_missing e) not_found (λ e'. cc e') (ap (λ (y : S × Outcome GetResult). y.1) h) in
      let is_404 = (laws.get_texts p s t' e is_x).0 ((is_missing_iff e).0 says) in
      let (gone, same) = laws.misses p s t' e is_x is_404 in
      (
        ap seen gone,
        λ q.
            ap (λ (u : S). seen (laws.held u q)) (sym (ap (λ (y : S × Outcome GetResult). y.0) h))
            ∙ ap seen (same q),
      )
  missed p s t (t', inr out) is_x h =
      absurd (read_answer-found out.body out.etag (ap (λ (y : S × Outcome GetResult). y.1) h))

  code_of_refusal :
      (input : PutObjectInput) (s t : S) (e : S3Error)
      → client.put_object input s ≡ (t, some e)
      → SaysRefused e ⊎ SaysConflict e
      → laws.code e ≡ condition_failed
  code_of_refusal input s t e is_x (inl says) = (laws.put_texts input s t e is_x).0.0 says
  code_of_refusal input s t e is_x (inr says) =
      absurd (quiet input s t e is_x ((laws.put_texts input s t e is_x).1.0 says))

  refused :
      (p b : Bytes) (v : Option Version) (s t : S) (x : S × Option S3Error)
      → client.put_object (conditional_input bucket p b v) s ≡ x
      → ◌≡◌ {A = S × Outcome (Unit {0})} (x.0, conditional_answer x.1) (t, err precondition_failed)
      → (version_of (seen (laws.held s p)) ≢ v)
        × ((q : Bytes) → seen (laws.held t q) ≡ seen (laws.held s q))
  unfolding conditional_answer
  refused p b v s t (t', none) is_x h = absurd (cc (ap (λ (y : S × Outcome (Unit {0})). y.1) h))
  refused p b v s t (t', some e) is_x h =
      let is_one =
        chosen (is_refused e) precondition_failed (λ e'. cc e')
          (ap (λ (y : S × Outcome (Unit {0})). y.1) h) in
      let (barred, same) =
        laws.refuses (conditional_input bucket p b v) s t' e (conditional_input-bucket p b v) is_x (
          code_of_refusal (conditional_input bucket p b v) s t' e is_x
            ((is_refused_iff e).0 is_one)) in
      (
        λ current. barred (
            subst
              (λ k.
                Allows (conditional_input bucket p b v).if_none_match
                  (conditional_input bucket p b v).if_match (laws.held s k))
              (sym (conditional_input-key p b v))
              (seen-Allows bucket p b v (laws.held s p) current)),
        λ q.
            ap (λ (u : S). seen (laws.held u q)) (sym (ap (λ (y : S × Outcome (Unit {0})). y.0) h))
            ∙ ap seen (same q),
      )

  stored :
      (p b : Bytes) (v : Option Version) (s t : S) (x : S × Option S3Error)
      → client.put_object (conditional_input bucket p b v) s ≡ x
      → ◌≡◌ {A = S × Outcome (Unit {0})} (x.0, conditional_answer x.1) (t, ok tt)
      → (version_of (seen (laws.held s p)) ≡ v)
        × (r : GetResult) × (seen (laws.held t p) ≡ some r)
        × (r.bytes ≡ b)
  unfolding conditional_answer
  stored p b none s t (t', none) is_x h =
      let (allowed, o, now, written) =
        laws.writes (conditional_input bucket p b none) s t' refl is_x in
      (
        Allows-seen bucket p b none (laws.held s p) allowed,
        record { bytes = o.body; version = record { etag = o.etag } },
        ap (λ (u : S). seen (laws.held u p)) (sym (ap (λ (y : S × Outcome (Unit {0})). y.0) h))
            ∙ ap seen now,
        written,
      )
  stored p b (some v) s t (t', none) is_x h =
      let (allowed, o, now, written) =
        laws.writes (conditional_input bucket p b (some v)) s t' refl is_x in
      (
        Allows-seen bucket p b (some v) (laws.held s p) allowed,
        record { bytes = o.body; version = record { etag = o.etag } },
        ap (λ (u : S). seen (laws.held u p)) (sym (ap (λ (y : S × Outcome (Unit {0})). y.0) h))
            ∙ ap seen now,
        written,
      )
  stored p b v s t (t', some e) is_x h =
      absurd (
        never_ok (is_refused e) precondition_failed tt (ap (λ (y : S × Outcome (Unit {0})). y.1) h))

  pinned_by_tag :
      (p : Bytes) (s t : S) (x y : Option S3Object) (r r' : GetResult)
      → laws.Others s t
      → laws.held s p ≡ x
      → laws.held t p ≡ y
      → seen x ≡ some r
      → seen y ≡ some r'
      → r.version ≡ r'.version
      → r.bytes ≡ r'.bytes
  pinned_by_tag p s t none y r r' others is_x is_y here there same = absurd (cc here)
  pinned_by_tag p s t (some o) none r r' others is_x is_y here there same = absurd (cc there)
  pinned_by_tag p s t (some o) (some o') r r' others is_x is_y here there same =
      let r_is = some-injective _ _ here in
      let r'_is = some-injective _ _ there in
      let tags : o.etag ≡ o'.etag =
        ap (λ (g : GetResult). g.version.etag) r_is
        ∙ ap (λ (v : Version). v.etag) same
        ∙ sym (ap (λ (g : GetResult). g.version.etag) r'_is) in
      sym (ap (λ (g : GetResult). g.bytes) r_is)
      ∙ laws.identifies p s t o o' others is_x is_y tags
      ∙ ap (λ (g : GetResult). g.bytes) r'_is

  told_missing :
      (p : Bytes) (s t : S) (e : S3Error)
      → client.get_object bucket p s ≡ (t, inl e)
      → laws.code e ≡ missing
      → (get client bucket p s).1 ≡ err not_found
  unfolding get get_answer
  told_missing p s t e is_x is_404 =
      ap (λ (x : S × (S3Error ⊎ GetObjectOutput)). get_answer x.1) is_x
      ∙ if_then (is_missing e) ((is_missing_iff e).1 ((laws.get_texts p s t e is_x).1 is_404)) _ _

  told_refused :
      (p b : Bytes) (v : Option Version) (s t : S) (e : S3Error)
      → client.put_object (conditional_input bucket p b v) s ≡ (t, some e)
      → laws.code e ≡ condition_failed
      → (put_if_match client bucket p b v s).1 ≡ err precondition_failed
  unfolding put_if_match conditional_answer
  told_refused p b v s t e is_x is_412 =
      ap (λ (x : S × Option S3Error). conditional_answer x.1) is_x
      ∙ if_then (is_refused e)
          ((is_refused_iff e).1
            (inl ((laws.put_texts (conditional_input bucket p b v) s t e is_x).0.1 is_412)))
          _ _

  keeps_contract : CasLaws (s3_store client bucket)
  unfolding get put_if_match
  keeps_contract = record {
    view = λ s p. seen (laws.held s p);
    Others = laws.Others;
    get_found = λ p s t r h. found p s t r (client.get_object bucket p s) refl h;
    get_missing = λ p s t h. missed p s t (client.get_object bucket p s) refl h;
    cas_ok = λ p b v s t h.
        stored p b v s t (client.put_object (conditional_input bucket p b v) s) refl h;
    cas_conflict = λ p b v s t h.
        refused p b v s t (client.put_object (conditional_input bucket p b v) s) refl h;
    pinned = λ p s t r r' others here there same.
        pinned_by_tag p s t (laws.held s p) (laws.held t p) r r' others refl refl here there same;
  }

  -- Over a service and a client that keep their documented promises, and where no write is answered
  -- with a conflicting request, `S3` keeps the contract of the interface: what it reads is what is
  -- there, and a conditional write that reports success has replaced just the version that it named,
  -- while one that reports a failed precondition has changed nothing and was late. And each answer of
  -- 404 to a read, or of 412 to a conditional write, is reported as such.
  pub s3_store-CasLaws :
      CasLaws (s3_store client bucket)
      × ((p : Bytes) (s t : S) (e : S3Error)
          → client.get_object bucket p s ≡ (t, inl e)
          → laws.code e ≡ missing
          → (get client bucket p s).1 ≡ err not_found)
      × ((p b : Bytes) (v : Option Version) (s t : S) (e : S3Error)
          → client.put_object (conditional_input bucket p b v) s ≡ (t, some e)
          → laws.code e ≡ condition_failed
          → (put_if_match client bucket p b v s).1 ≡ err precondition_failed)
  s3_store-CasLaws = (keeps_contract, told_missing, told_refused)
