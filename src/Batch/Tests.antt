-- ===== src/Batch/Tests.antt =====
-- Concrete batches.
use opendata_go.Base.{
  subst, panic, ◌≢◌, none, [], All, arith, serialization, ok, some, List, ◌++◌, ◌∷◌, err, true,
  Option, ℕ, ◌≡◌, refl,
}
use mathlib.Core.Option.{some-injective}
use opendata_go.Bytes.{Bytes, IsByte, le_bytes, slice}
use opendata_go.Batch.{
  append_entries, slice, Zstd, IsLossless, encode_batch, decode_batch, decompress, compression_none,
  compression_zstd,
}
use opendata_go.Batch.RoundTrip.{decode_batch-encode_batch, block_of, footer_of}
use opendata_go.Batch.Safety.{decode_batch-ne-panic, decode_batch_sound}

abbrev unmark : Bytes → Option Bytes
unmark [] = none
unmark (b ∷ bs) = some bs

-- A stand-in for the library: it marks its output with one byte.
abbrev marking : Zstd
marking = record {
  new_writer = true;
  encode_all = λ b. 0x28 ∷ b;
  close = true;
  new_reader = true;
  decode_all = unmark;
}

marking-IsLossless : IsLossless marking
marking-IsLossless = record { reader_starts = refl; decode-encode = λ b. refl }

abbrev two_entries : List Bytes
two_entries = (1 ∷ 2 ∷ 3 ∷ []) ∷ [] ∷ []

abbrev two_entries_bytes : Bytes
two_entries_bytes = 3 ∷ 0 ∷ 0 ∷ 0 ∷ 1 ∷ 2 ∷ 3 ∷ 0 ∷ 0 ∷ 0 ∷ 0 ∷ 0 ∷ 2 ∷ 0 ∷ 0 ∷ 0 ∷ 1 ∷ 0 ∷ []

encode_plain : encode_batch marking two_entries compression_none ≡ ok two_entries_bytes
unfolding encode_batch append_entries le_bytes
encode_plain = refl

abbrev two_entries_packed : Bytes
two_entries_packed =
    0x28 ∷ 3 ∷ 0 ∷ 0 ∷ 0 ∷ 1 ∷ 2 ∷ 3 ∷ 0 ∷ 0 ∷ 0 ∷ 0 ∷ 1 ∷ 2 ∷ 0 ∷ 0 ∷ 0 ∷ 1 ∷ 0 ∷ []

encode_packed : encode_batch marking two_entries compression_zstd ≡ ok two_entries_packed
unfolding encode_batch append_entries le_bytes
encode_packed = refl

encode_unknown : encode_batch marking two_entries 7 ≡ err serialization
unfolding encode_batch
encode_unknown = refl

decode_plain : decode_batch marking two_entries_bytes ≡ ok two_entries
unfolding decode_batch slice
decode_plain = refl

-- The second record claims nine bytes.
decode_truncated :
    decode_batch marking (1 ∷ 0 ∷ 0 ∷ 0 ∷ 7 ∷ 9 ∷ 0 ∷ 0 ∷ 0 ∷ 0 ∷ 2 ∷ 0 ∷ 0 ∷ 0 ∷ 1 ∷ 0 ∷ [])
    ≡ err serialization
unfolding decode_batch slice
decode_truncated = refl

decode_version : decode_batch marking (0 ∷ 0 ∷ 0 ∷ 0 ∷ 0 ∷ 2 ∷ 0 ∷ []) ≡ err serialization
unfolding decode_batch slice
decode_version = refl

decode_batch-encode_batch_example : decode_batch marking two_entries_packed ≡ ok two_entries
decode_batch-encode_batch_example =
    decode_batch-encode_batch marking two_entries compression_zstd two_entries_packed
      (λ _. marking-IsLossless) (omega arith) encode_packed

decode_batch-ne-panic_example :
    decode_batch marking (9 ∷ 9 ∷ 9 ∷ 9 ∷ 9 ∷ 0 ∷ 0 ∷ 0 ∷ 0 ∷ 1 ∷ 0 ∷ []) ≢ panic
decode_batch-ne-panic_example =
    decode_batch-ne-panic marking (9 ∷ 9 ∷ 9 ∷ 9 ∷ 9 ∷ 0 ∷ 0 ∷ 0 ∷ 0 ∷ 1 ∷ 0 ∷ [])

unmark-IsByte : (b d : Bytes) → All IsByte b → unmark b ≡ some d → All IsByte d
unmark-IsByte [] d a h = cc
unmark-IsByte (x ∷ b) d a h = subst (All IsByte) (some-injective _ _ h) a.1

decode_batch_sound_example :
    (compression : ℕ) × (block entry_data rest : Bytes) × (two_entries_bytes
      ≡ block ++ footer_of compression 2)
    × (decompress marking compression block ≡ ok entry_data)
    × (entry_data ≡ block_of two_entries ++ rest)
decode_batch_sound_example =
    decode_batch_sound marking two_entries_bytes two_entries (record { decoded = unmark-IsByte })
      (omega arith) decode_plain
