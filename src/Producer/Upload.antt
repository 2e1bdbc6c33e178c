-- ===== src/Producer/Upload.antt =====
-- buffer/producer.go: a batch on its way through `encoder` and `uploaderWorker` into the object store.
mod Tests
use opendata_go.Base.{
  ◌∙◌, ap, storage, sym, ◌≢◌, Outcome, ok, err, panic, Option, none, some, ◌≡◌, ◌⊎◌, inl, inr,
  Error, length, ◌<◌, ◌^◌, ℕ, Bool, refl, Outcome-cases,
}
use opendata_go.Bytes.{Bytes}
use opendata_go.Batch.{IsLossless, Zstd, encode_batch, decode_batch, compression_zstd}
use opendata_go.Batch.RoundTrip.{decode_batch-encode_batch}
use opendata_go.Committer.{EncodedBatch, UploadCompletion}
use opendata_go.Producer.Rotator.{PendingBatch}
use opendata_go.Producer.Retry.{Attempt, with_retry-Tried, put_with_retry}
use opendata_go.Producer.Encoder.{encode_pending, encoded_as, location, upload}
use opendata_go.Store.{GetResult, ObjectStore}

abbrev pub error_of : Outcome (Unit {0}) → Option Error
error_of (ok u) = none
error_of (err e) = some e
error_of panic = none

-- An attempt of `putWithRetry`: a `Put` of the payload. (A store's method does not panic.)
abbrev pub put_attempt : {S : Type 0} → ObjectStore S → EncodedBatch → S → Attempt S
put_attempt o eb s = record {
  state = (o.put eb.location eb.payload s).0;
  conflicts = 0;
  error = error_of (o.put eb.location eb.payload s).1;
}

-- What the interface says of `Put` and `Get`: what was put is there to be got.
pub record PutLaws {S : Type 0} (o : ObjectStore S) : Type 0 where
  pub no_panic : (p b : Bytes) (s : S) → (o.put p b s).1 ≢ panic
  pub stored :
      (p b : Bytes) (s : S)
      → (o.put p b s).1 ≡ ok tt
      → (r : GetResult) × ((o.get p (o.put p b s).0).1 ≡ ok r) × (r.bytes ≡ b)

put_ok : (x : Outcome (Unit {0})) → x ≢ panic → error_of x ≡ none → x ≡ ok tt
put_ok (ok u) np h = refl
put_ok (err e) np h = absurd (cc h)
put_ok panic np h = absurd (np refl)

encode_pending-payload :
    (z : Zstd) (compression : ℕ) (prefix run_id : Bytes) (pb : PendingBatch) (eb : EncodedBatch)
    → encode_pending z compression prefix run_id pb ≡ ok (inr eb)
    → (payload : Bytes) × (encode_batch z pb.entries compression ≡ ok payload)
      × (eb ≡ encoded_as pb payload (location prefix run_id pb.ordinal))
unfolding encode_pending
encode_pending-payload z compression prefix run_id pb eb h =
    elim (Outcome-cases (encode_batch z pb.entries compression)) [
      | inl (payload, encoded) ↦
          let h' : ok (inr (encoded_as pb payload (location prefix run_id pb.ordinal)))
              ≡ ok (inr eb) =
            rw (encoded, encode_pending) at h in
          (payload, encoded, sym (cc h'))
      | inr (inl (e, failed)) ↦ absurd (cc (rw (failed, encode_pending) at h))
      | inr (inr crashed) ↦ absurd (cc (rw (crashed, encode_pending) at h))
    ]

-- A batch of fewer than 2^32 entries that was encoded and whose upload reports no error, after however
-- many attempts, goes to the committer under the location of its ordinal, and the object that the store
-- returns there decodes to its entries. The store returns what was put; for zstd this rests on the
-- library being lossless.
pub decode_batch-upload :
    {S : Type 0} (o : ObjectStore S) (z : Zstd) (compression : ℕ) (prefix run_id : Bytes)
    (pb : PendingBatch) (eb : EncodedBatch) (shutdown_at : ℕ → Bool) (max_attempts : ℕ) (s : S)
    → PutLaws o
    → (compression ≡ compression_zstd → IsLossless z)
    → length pb.entries < 2 ^ 32
    → encode_pending z compression prefix run_id pb ≡ ok (inr eb)
    → (upload (put_attempt o) shutdown_at max_attempts eb s).1.put_error ≡ none
    → ((upload (put_attempt o) shutdown_at max_attempts eb s).1.eb.location
        ≡ location prefix run_id pb.ordinal)
      × (r : GetResult) × ((o.get
            (location prefix run_id pb.ordinal)
            (upload (put_attempt o) shutdown_at max_attempts eb s).0).1
          ≡ ok r)
      × (decode_batch z r.bytes ≡ ok pb.entries)
decode_batch-upload o z compression prefix run_id pb eb shutdown_at max_attempts s laws lossless few
      encoded fine =
    let (payload, is_payload, is_eb) =
      encode_pending-payload z compression prefix run_id pb eb encoded in
    let tried = with_retry-Tried (put_attempt o eb) shutdown_at (λ e. storage) max_attempts s in
    let (t, worked, last) = tried.last_succeeded fine in
    let put =
      put_ok (o.put eb.location eb.payload t).1 (laws.no_panic eb.location eb.payload t) worked in
    let (r, got, same) = laws.stored eb.location eb.payload t put in
    let there : eb.location ≡ location prefix run_id pb.ordinal =
      ap (λ (x : EncodedBatch). x.location) is_eb in
    let bytes : r.bytes ≡ payload = same ∙ ap (λ (x : EncodedBatch). x.payload) is_eb in
    (
      there,
      r,
      ap (λ u. (o.get (location prefix run_id pb.ordinal) u).1) (sym last)
          ∙ ap (λ p. (o.get p (o.put eb.location eb.payload t).0).1) (sym there)
          ∙ got,
      ap (decode_batch z) bytes
          ∙ decode_batch-encode_batch z pb.entries compression payload lossless few is_payload,
    )
