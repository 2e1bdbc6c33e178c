-- ===== src/Manifest.antt =====
-- buffer/manifest.go, the data model: the queue manifest and its binary format.
--   [entries] [entries count u32] [next sequence u64] [epoch u64] [version u16]
-- An entry is
--   [body length u32] [sequence u64] [location length u16] [location] [metadata count u32]
--   and for each metadata range [start index u32] [ingestion time i64] [length u32] [payload].
pub mod Encode
pub mod Decode
pub mod Layout
pub mod Footer
pub mod RoundTrip
pub mod Safety
pub mod Append
pub mod ToBytes
mod Tests
use opendata_go.Base.{ℕ, ◌+◌, ◌*◌, List, Outcome, ok}
use opendata_go.Bytes.{Bytes, ℤ}

abbrev pub manifest_version : ℕ
manifest_version = 1

abbrev pub m_entry_len_size : ℕ
m_entry_len_size = 4

abbrev pub m_sequence_size : ℕ
m_sequence_size = 8

abbrev pub m_location_len_size : ℕ
m_location_len_size = 2

abbrev pub m_metadata_count_size : ℕ
m_metadata_count_size = 4

abbrev pub m_start_index_size : ℕ
m_start_index_size = 4

abbrev pub m_ingestion_time_ms_size : ℕ
m_ingestion_time_ms_size = 8

abbrev pub m_metadata_len_size : ℕ
m_metadata_len_size = 4

abbrev pub m_footer_size : ℕ
m_footer_size = 22

-- `QueueMetadata`; `start_index` is a uint32 and `ingestion_time_ms` an int64.
pub record QueueMetadata : Type 0 where
  pub start_index : ℕ
  pub ingestion_time_ms : ℤ
  pub payload : Bytes

-- `QueueEntry`; `sequence` is a uint64 and `location` a Go string, which is its bytes.
pub record QueueEntry : Type 0 where
  pub sequence : ℕ
  pub location : Bytes
  pub metadata : List QueueMetadata

-- `manifest`. `bytes` is the field `data`: the serialized entries with their footer.
pub record Manifest : Type 0 where
  pub bytes : Bytes
  pub appended : Bytes
  pub appended_count : ℕ
  pub next_sequence : ℕ
  pub epoch : ℕ
