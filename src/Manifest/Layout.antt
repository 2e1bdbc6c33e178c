-- ===== src/Manifest/Layout.antt =====
-- The manifest's format as plain recursions, and what fits its length fields.
use opendata_go.Base.{
  arith, refl, length-append, All, ◌+◌, append_assoc, ◌≡◌, ◌^◌, [], ◌∷◌, ◌++◌, ◌<◌, length, ℕ, List,
}
use opendata_go.Bytes.{Bytes, le_bytes, u64_of_int, IsInt64}
use opendata_go.Bytes.Laws.{length-le_bytes}
use opendata_go.Manifest.{QueueMetadata, QueueEntry, manifest_version}

unfoldable pub range_bytes : QueueMetadata → Bytes
range_bytes m =
    le_bytes 4 m.start_index
    ++ (le_bytes 8 (u64_of_int m.ingestion_time_ms) ++ (le_bytes 4 (length m.payload) ++ m.payload))

unfoldable pub ranges_bytes : List QueueMetadata → Bytes
ranges_bytes [] = []
ranges_bytes (m ∷ ms) = range_bytes m ++ ranges_bytes ms

unfoldable pub body_bytes : QueueEntry → Bytes
body_bytes e =
    le_bytes 8 e.sequence
    ++ (le_bytes 2 (length e.location)
        ++ (e.location ++ (le_bytes 4 (length e.metadata) ++ ranges_bytes e.metadata)))

unfoldable pub entry_bytes : QueueEntry → Bytes
entry_bytes e = le_bytes 4 (length (body_bytes e)) ++ body_bytes e

unfoldable pub entries_bytes : List QueueEntry → Bytes
entries_bytes [] = []
entries_bytes (e ∷ es) = entry_bytes e ++ entries_bytes es

unfoldable pub footer_bytes : ℕ → ℕ → ℕ → Bytes
footer_bytes count next epoch =
    le_bytes 4 count ++ (le_bytes 8 next ++ (le_bytes 8 epoch ++ le_bytes 2 manifest_version))

pub record IsRange (m : QueueMetadata) : Type 0 where
  pub start_fits : m.start_index < 2 ^ 32
  pub time_fits : IsInt64 m.ingestion_time_ms
  pub payload_fits : length m.payload < 2 ^ 32

pub record IsEntry (e : QueueEntry) : Type 0 where
  pub sequence_fits : e.sequence < 2 ^ 64
  pub location_fits : length e.location < 2 ^ 16
  pub count_fits : length e.metadata < 2 ^ 32
  pub body_fits : length (body_bytes e) < 2 ^ 32
  pub ranges : All IsRange e.metadata

pub length-range_bytes : (m : QueueMetadata) → length (range_bytes m) ≡ 16 + length m.payload
unfolding range_bytes
length-range_bytes m = simp (length-append, length-le_bytes) (omega arith)

pub length-body_bytes :
    (e : QueueEntry)
    → length (body_bytes e) ≡ 14 + length e.location + length (ranges_bytes e.metadata)
unfolding body_bytes
length-body_bytes e = simp (length-append, length-le_bytes) (omega arith)

pub length-entry_bytes : (e : QueueEntry) → length (entry_bytes e) ≡ 4 + length (body_bytes e)
unfolding entry_bytes
length-entry_bytes e = simp (length-append, length-le_bytes)

pub length-footer_bytes : (count next epoch : ℕ) → length (footer_bytes count next epoch) ≡ 22
unfolding footer_bytes
length-footer_bytes count next epoch = simp (length-append, length-le_bytes)

pub entries_bytes-append :
    (es fs : List QueueEntry) → entries_bytes (es ++ fs) ≡ entries_bytes es ++ entries_bytes fs
unfolding entries_bytes
entries_bytes-append [] fs = refl
entries_bytes-append (e ∷ es) fs = simp (entries_bytes-append es fs, append_assoc)
