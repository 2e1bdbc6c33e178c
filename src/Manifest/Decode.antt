-- ===== src/Manifest/Decode.antt =====
-- buffer/manifest.go: `DecodeManifestEntries`, `decodeQueueEntry`.
use opendata_go.Base.{
  ◌-◌, zero, serialization, length, ◌+◌, [], ◌∷◌, ltb, fail_if, ◌++◌, ◌>>=◌, ◌>>◌, suc, ok, Outcome,
  ℕ, List,
}
use opendata_go.Bytes.{Bytes, slice, read_le, int_of_u64}
use opendata_go.Manifest.{
  QueueMetadata, QueueEntry, m_entry_len_size, m_metadata_count_size, m_start_index_size,
  m_ingestion_time_ms_size, m_metadata_len_size, m_sequence_size, m_location_len_size,
  m_footer_size,
}

-- One round of the metadata loop: the range at `offset`, and the offset behind it.
unfoldable pub decode_range : Bytes → ℕ → ℕ → Outcome (QueueMetadata × ℕ)
decode_range bytes entry_end offset = do
  fail_if (ltb entry_end (offset + m_start_index_size)) serialization
  start_index ← read_le 4 bytes offset
  let offset1 = offset + m_start_index_size
  fail_if (ltb entry_end (offset1 + m_ingestion_time_ms_size)) serialization
  time ← read_le 8 bytes offset1
  let offset2 = offset1 + m_ingestion_time_ms_size
  fail_if (ltb entry_end (offset2 + m_metadata_len_size)) serialization
  m_len ← read_le 4 bytes offset2
  let offset3 = offset2 + m_metadata_len_size
  fail_if (ltb entry_end (offset3 + m_len)) serialization
  payload ← slice bytes offset3 (offset3 + m_len)
  ok (
    record { start_index = start_index; ingestion_time_ms = int_of_u64 time; payload = payload },
    offset3 + m_len,
  )

-- The metadata loop, by the rounds left. (The offset that it ends with is not used again.)
unfoldable pub decode_metadata :
    ℕ → Bytes → ℕ → ℕ → List QueueMetadata → Outcome (List QueueMetadata)
decode_metadata zero bytes entry_end offset metadata = ok metadata
decode_metadata (suc n) bytes entry_end offset metadata = do
  (range, offset') ← decode_range bytes entry_end offset
  decode_metadata n bytes entry_end offset' (metadata ++ (range ∷ []))

unfoldable pub decode_queue_entry : Bytes → ℕ → ℕ → Outcome (QueueEntry × ℕ)
decode_queue_entry bytes offset end = do
  fail_if (ltb end (offset + m_entry_len_size)) serialization
  entry_len ← read_le 4 bytes offset
  let offset1 = offset + m_entry_len_size
  fail_if (ltb end (offset1 + entry_len)) serialization
  let entry_end = offset1 + entry_len
  seq ← read_le 8 bytes offset1
  let offset2 = offset1 + m_sequence_size
  loc_len ← read_le 2 bytes offset2
  let offset3 = offset2 + m_location_len_size
  fail_if (ltb entry_end (offset3 + loc_len + m_metadata_count_size)) serialization
  location ← slice bytes offset3 (offset3 + loc_len)
  let offset4 = offset3 + loc_len
  metadata_count ← read_le 4 bytes offset4
  metadata ← decode_metadata metadata_count bytes entry_end (offset4 + m_metadata_count_size) []
  ok (record { sequence = seq; location = location; metadata = metadata }, entry_end)

-- The loop of `DecodeManifestEntries`, by the entries left.
unfoldable pub decode_entries : ℕ → Bytes → ℕ → ℕ → List QueueEntry → Outcome (List QueueEntry)
decode_entries zero bytes offset footer_start entries = ok entries
decode_entries (suc n) bytes offset footer_start entries = do
  (entry, new_offset) ← decode_queue_entry bytes offset footer_start
  decode_entries n bytes new_offset footer_start (entries ++ (entry ∷ []))

unfoldable pub decode_manifest_entries : Bytes → Outcome (List QueueEntry)
decode_manifest_entries bytes = do
  fail_if (ltb (length bytes) m_footer_size) serialization
  let footer_start = length bytes - m_footer_size
  count ← read_le 4 bytes footer_start
  decode_entries count bytes 0 footer_start []
