-- ===== src/Producer/Upload/Tests.antt =====
-- Batch 5, uncompressed, on its way into the in-memory store.
use opendata_go.Base.{if_then, true, [], ◌∷◌, ◌≡◌, inr, ok, none, some, false, Option, refl, arith}
use opendata_go.Bytes.{Bytes, le_bytes}
use opendata_go.Bytes.Decimal.{same, same_refl}
use opendata_go.Batch.{
  Zstd, IsLossless, encode_batch, decode_batch, append_entries, compression_none, compression_zstd,
}
use opendata_go.Committer.{EncodedBatch}
use opendata_go.Store.{GetResult}
use opendata_go.Store.Memory.{
  version_etag, InMemory, MemObject, in_memory, new_in_memory, get, put, written,
}
use opendata_go.Producer.Rotator.{PendingBatch, size}
use opendata_go.Producer.Encoder.{encode_pending, encoded_as, location, upload}
use opendata_go.Producer.Retry.{with_retry, retry_loop}
use opendata_go.Producer.Upload.{PutLaws, put_attempt, decode_batch-upload}

abbrev marking : Zstd
marking = record {
  new_writer = true;
  encode_all = λ b. 0x28 ∷ b;
  close = true;
  new_reader = true;
  decode_all = λ b. some b;
}

-- Uncompressed batches ask nothing of the library.
uncompressed : compression_none ≡ compression_zstd → IsLossless marking
uncompressed e = absurd (omega (arith, e))

abbrev pending : PendingBatch
pending = record {
  ordinal = 5;
  entries = (1 ∷ 2 ∷ 3 ∷ []) ∷ [] ∷ [];
  metadata = [];
  watchers = 0 ∷ [];
  stats = record { inputs = 1; entries = 2; uncompressed_bytes = 3 };
  reason = size;
  flush_ack = none;
  byte_cost = 18;
}

abbrev batch_bytes : Bytes
batch_bytes = 3 ∷ 0 ∷ 0 ∷ 0 ∷ 1 ∷ 2 ∷ 3 ∷ 0 ∷ 0 ∷ 0 ∷ 0 ∷ 0 ∷ 2 ∷ 0 ∷ 0 ∷ 0 ∷ 1 ∷ 0 ∷ []

abbrev encoded : EncodedBatch
encoded = encoded_as pending batch_bytes (location [] [] 5)

is_encoded : encode_pending marking compression_none [] [] pending ≡ ok (inr encoded)
unfolding encode_pending encode_batch append_entries le_bytes
is_encoded = refl

is_uploaded :
    (upload (put_attempt in_memory) (λ k. false) 3 encoded new_in_memory).1.put_error ≡ none
unfolding with_retry retry_loop put
is_uploaded = refl

got :
    (p : Bytes) (m : InMemory) (obj : MemObject)
    → m p ≡ some obj
    → (get p m).1 ≡ ok (record { bytes = obj.bytes; version = version_etag obj.version })
unfolding get
got p m obj e = rw (e, get)

written-bytes : (b : Bytes) (x : Option MemObject) → (written b x).bytes ≡ b
written-bytes b none = refl
written-bytes b (some obj) = refl

in_memory-PutLaws : PutLaws in_memory
unfolding put
in_memory-PutLaws = record {
  no_panic = λ p b s h. cc h;
  stored = λ p b s h. (
    _,
    got p (put p b s).0 (written b (s p)) (if_then (same p p) (same_refl p) _ _),
    written-bytes b (s p),
  );
}

decode_batch-upload_example :
    (encoded.location ≡ location [] [] 5)
    × (r : GetResult) × ((get
          (location [] [] 5)
          (upload (put_attempt in_memory) (λ k. false) 3 encoded new_in_memory).0).1
        ≡ ok r)
    × (decode_batch marking r.bytes ≡ ok pending.entries)
decode_batch-upload_example =
    decode_batch-upload in_memory marking compression_none [] [] pending encoded (λ k. false) 3
      new_in_memory in_memory-PutLaws uncompressed (omega arith) is_encoded is_uploaded
