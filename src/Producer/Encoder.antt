-- ===== src/Producer/Encoder.antt =====
-- buffer/producer.go: `encoder` and `uploaderWorker`, one batch at a time.
use opendata_go.Base.{
  length-append, refl, ap, panic, true, some, inl, zero, err, inr, ◌%◌, arith, ◌/◌, ◌+◌, ok, ◌^◌,
  ltb, ◌∷◌, false, ◌≡◌, ◌⊎◌, suc, Outcome, ◌++◌, [], if◌then◌else◌, ◌<◌, Bool, ℕ, length,
}
use opendata_go.Bytes.{Bytes}
use mathlib.Core.List.{head-eq_of_cons-eq, tail-eq_of_cons-eq}
use opendata_go.Batch.{Zstd, encode_batch}
use opendata_go.Committer.{EncodedBatch, UploadCompletion}
use opendata_go.Producer.Rotator.{PendingBatch}
use opendata_go.Producer.Retry.{Attempt, put_with_retry}

abbrev pub hex_digit : ℕ → ℕ
hex_digit d = if ltb d 10 then 48 + d else 87 + d

-- The last `k` hexadecimal digits; `%016x` of a uint64 has 16.
unfoldable pub hex_digits : ℕ → ℕ → Bytes
hex_digits zero n = []
hex_digits (suc k) n = hex_digits k (n / 16) ++ (hex_digit (n % 16) ∷ [])

-- `fmt.Sprintf("%s/%s/%016x", …)`; 47 is the slash.
unfoldable pub location : Bytes → Bytes → ℕ → Bytes
unfolding hex_digits
location prefix run_id ordinal = prefix ++ (47 ∷ (run_id ++ (47 ∷ hex_digits 16 ordinal)))

abbrev pub encoded_as : PendingBatch → Bytes → Bytes → EncodedBatch
encoded_as pb payload location' = record {
  ordinal = pb.ordinal;
  payload = payload;
  metadata = pb.metadata;
  watchers = pb.watchers;
  flush_ack = pb.flush_ack;
  location = location';
  byte_cost = pb.byte_cost;
}

-- The body of `encoder`'s loop: a completion for the committer, or a batch for the uploaders.
unfoldable pub encode_pending :
    Zstd → ℕ → Bytes → Bytes → PendingBatch → Outcome (UploadCompletion ⊎ EncodedBatch)
unfolding location
encode_pending z compression prefix run_id pb = elim (encode_batch z pb.entries compression) [
  | ok payload ↦ ok (inr (encoded_as pb payload (location prefix run_id pb.ordinal)))
  | err e ↦ ok (inl (record { eb = encoded_as pb [] []; put_error = some e; encode_failed = true }))
  | panic ↦ panic
]

-- The body of `uploaderWorker`'s loop; the payload is dropped once it is stored.
abbrev pub upload :
    {S : Type 0}
    → (EncodedBatch → S → Attempt S)
    → (ℕ → Bool)
    → ℕ
    → EncodedBatch
    → S
    → S × UploadCompletion
upload put shutdown_at max_attempts eb s =
    let r = put_with_retry (put eb) shutdown_at max_attempts s in
    (
      r.state,
      record { eb = record eb { payload = [] }; put_error = r.error; encode_failed = false },
    )

hex_digit-injective : (a b : ℕ) → a < 16 → b < 16 → hex_digit a ≡ hex_digit b → a ≡ b
hex_digit-injective a b h h' e = ground arith

snoc-injective : (xs ys : Bytes) (x y : ℕ) → xs ++ (x ∷ []) ≡ ys ++ (y ∷ []) → (xs ≡ ys) × (x ≡ y)
snoc-injective [] [] x y e = (refl, head-eq_of_cons-eq e)
snoc-injective [] (b ∷ ys) x y e = absurd (omega (arith, ap length e, length-append ys (y ∷ [])))
snoc-injective (a ∷ xs) [] x y e = absurd (omega (arith, ap length e, length-append xs (x ∷ [])))
snoc-injective (a ∷ xs) (b ∷ ys) x y e =
    let (same, last) = snoc-injective xs ys x y (tail-eq_of_cons-eq e) in
    ((λ i. head-eq_of_cons-eq e i ∷ same i), last)

hex_digits-injective :
    (k a b : ℕ) → a < 16 ^ k → b < 16 ^ k → hex_digits k a ≡ hex_digits k b → a ≡ b
unfolding hex_digits
hex_digits-injective zero a b h h' e = omega (arith, h, h')
hex_digits-injective (suc k) a b h h' e =
    let (front, last) = snoc-injective (hex_digits k (a / 16)) (hex_digits k (b / 16)) _ _ e in
    let bound_a : a / 16 < 16 ^ k = omega (arith, h) in
    let bound_b : b / 16 < 16 ^ k = omega (arith, h') in
    let high = hex_digits-injective k (a / 16) (b / 16) bound_a bound_b front in
    let low = hex_digit-injective (a % 16) (b % 16) (omega arith) (omega arith) last in
    omega (arith, high, low)

append-cancel : (xs ys zs : Bytes) → xs ++ ys ≡ xs ++ zs → ys ≡ zs
append-cancel [] ys zs e = e
append-cancel (x ∷ xs) ys zs e = append-cancel xs ys zs (tail-eq_of_cons-eq e)

-- Batches of one producer go to different objects: the location determines the ordinal.
pub location-injective :
    (prefix run_id : Bytes) (a b : ℕ)
    → a < 2 ^ 64
    → b < 2 ^ 64
    → location prefix run_id a ≡ location prefix run_id b
    → a ≡ b
unfolding location
location-injective prefix run_id a b h h' e =
    hex_digits-injective 16 a b (omega arith) (omega arith) (
      tail-eq_of_cons-eq
        (append-cancel run_id _ _ (tail-eq_of_cons-eq (append-cancel prefix _ _ e))))
