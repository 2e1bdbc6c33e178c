-- ===== src/Store/S3/Service.antt =====
-- objstore/s3.go: what the service behind `S3` promises, and how its conditions read the versions.
use opendata_go.Base.{refl, ◌↔◌, ◌∙◌, ap, Option, none, some, ◌≡◌, inl, inr}
use mathlib.Core.Option.{some-injective}
use opendata_go.Bytes.{Bytes}
use opendata_go.Store.{Version, GetResult, version_of}
use opendata_go.Store.S3.Texts.{SaysMissing, SaysRefused, SaysConflict}
use opendata_go.Store.S3.{S3Error, GetObjectOutput, PutObjectInput, S3Client, conditional_input}

-- What the service holds under a key.
pub record S3Object : Type 0 where
  pub etag : Bytes
  pub body : Bytes

-- Do the conditions of a write, `If-None-Match: *` or `If-Match`, hold of an object?
abbrev pub Allows : Option Bytes → Option Bytes → Option S3Object → Type 0
Allows (some star) match held = held ≡ none
Allows none (some tag) held = (o : S3Object) × (held ≡ some o) × (o.etag ≡ tag)
Allows none none held = Unit {0}

-- What the service answers a request that it does not carry out. `missing` is the status 404: there is no
-- such key, or no such bucket. `condition_failed` is 412, `request_conflict` is 409.
pub data S3Code : Type 0 where
  missing condition_failed request_conflict other_code : S3Code

-- The service and its client, as they are documented: reads and conditional writes are each one step,
-- an object's tag identifies its bytes, and the client's error names what the service answered, as its
-- type or in its text.
pub record S3Laws {S : Type 0} (client : S3Client S) (bucket : Bytes) : Type 1 where
  pub code : S3Error → S3Code
  pub get_texts :
      (key : Bytes) (s t : S) (e : S3Error)
      → client.get_object bucket key s ≡ (t, inl e)
      → SaysMissing e ↔ (code e ≡ missing)
  pub put_texts :
      (input : PutObjectInput) (s t : S) (e : S3Error)
      → client.put_object input s ≡ (t, some e)
      → (SaysRefused e ↔ (code e ≡ condition_failed))
        × (SaysConflict e ↔ (code e ≡ request_conflict))
  pub held : S → Bytes → Option S3Object
  pub Others : S → S → Type 0
  pub reads :
      (key : Bytes) (s t : S) (out : GetObjectOutput)
      → client.get_object bucket key s ≡ (t, inr out)
      → (o : S3Object) × (held s key ≡ some o)
        × (out.etag ≡ some o.etag)
        × ((b : Bytes) → out.body ≡ some b → b ≡ o.body)
        × ((k : Bytes) → held t k ≡ held s k)
  pub misses :
      (key : Bytes) (s t : S) (e : S3Error)
      → client.get_object bucket key s ≡ (t, inl e)
      → code e ≡ missing
      → (held s key ≡ none) × ((k : Bytes) → held t k ≡ held s k)
  pub writes :
      (input : PutObjectInput) (s t : S)
      → input.bucket ≡ bucket
      → client.put_object input s ≡ (t, none)
      → Allows input.if_none_match input.if_match (held s input.key)
        × (o : S3Object) × (held t input.key ≡ some o)
        × (o.body ≡ input.body)
  pub refuses :
      (input : PutObjectInput) (s t : S) (e : S3Error)
      → input.bucket ≡ bucket
      → client.put_object input s ≡ (t, some e)
      → code e ≡ condition_failed
      → (Allows input.if_none_match input.if_match (held s input.key) → ⊥)
        × ((k : Bytes) → held t k ≡ held s k)
  pub identifies :
      (key : Bytes) (s t : S) (o o' : S3Object)
      → Others s t
      → held s key ≡ some o
      → held t key ≡ some o'
      → o.etag ≡ o'.etag
      → o.body ≡ o'.body

abbrev pub seen : Option S3Object → Option GetResult
seen none = none
seen (some o) = some (record { bytes = o.body; version = record { etag = o.etag } })

-- The condition that `conditional_input` sets is that the version is the current one.
pub Allows-seen :
    (bucket path written : Bytes) (version : Option Version) (x : Option S3Object)
    → Allows
        (conditional_input bucket path written version).if_none_match
        (conditional_input bucket path written version).if_match
        x
    → version_of (seen x) ≡ version
Allows-seen bucket path written none none h = refl
Allows-seen bucket path written none (some o) h = absurd (cc h)
Allows-seen bucket path written (some v) none (o, h, e) = absurd (cc h)
Allows-seen bucket path written (some v) (some o') (o, h, e) = ap some (
    ap (λ (x : Bytes). record { etag = x })
      (ap (λ (y : S3Object). y.etag) (some-injective _ _ h) ∙ e))

pub seen-Allows :
    (bucket path written : Bytes) (version : Option Version) (x : Option S3Object)
    → version_of (seen x) ≡ version
    → Allows
        (conditional_input bucket path written version).if_none_match
        (conditional_input bucket path written version).if_match
        x
seen-Allows bucket path written none none h = refl
seen-Allows bucket path written none (some o) h = absurd (cc h)
seen-Allows bucket path written (some v) none h = absurd (cc h)
seen-Allows bucket path written (some v) (some o) h =
    (o, refl, ap (λ (x : Version). x.etag) (some-injective _ _ h))
