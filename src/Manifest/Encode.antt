-- ===== src/Manifest/Encode.antt =====
-- buffer/manifest.go: `emptyManifest`, `manifestFromBytes`, `append`, `toBytes`, `encodeQueueEntry`.
use opendata_go.Base.{
  not, invalid_input, serialization, ◌^◌, fail_if, ◌+◌, ◌>>◌, ◌>>=◌, ◌-◌, panic, ◌==◌, ltb,
  if◌then◌else◌, ok, length, ◌∷◌, ◌++◌, [], Outcome, ℕ, List,
}
use opendata_go.Bytes.{Bytes, u16, u32, u64, le_bytes, slice, read_le, u64_of_int}
use opendata_go.Manifest.{
  QueueMetadata, QueueEntry, Manifest, manifest_version, m_metadata_count_size, m_start_index_size,
  m_ingestion_time_ms_size, m_metadata_len_size, m_sequence_size, m_location_len_size,
  m_footer_size,
}

unfoldable pub append_footer : Bytes → ℕ → ℕ → ℕ → Bytes
append_footer buf count next_sequence epoch =
    (((buf ++ le_bytes 4 (u32 count)) ++ le_bytes 8 (u64 next_sequence)) ++ le_bytes 8 (u64 epoch))
    ++ le_bytes 2 manifest_version

unfoldable pub empty_manifest : Manifest
empty_manifest = record {
  bytes = append_footer [] 0 0 0;
  appended = [];
  appended_count = 0;
  next_sequence = 0;
  epoch = 0;
}

unfoldable pub manifest_from_bytes : Bytes → Outcome Manifest
manifest_from_bytes bytes = do
  fail_if (length bytes == 0) serialization
  fail_if (ltb (length bytes) m_footer_size) serialization
  version ← read_le 2 bytes (length bytes - 2)
  fail_if (not (version == manifest_version)) serialization
  epoch ← read_le 8 bytes (length bytes - 2 - 8)
  next_seq ← read_le 8 bytes (length bytes - 2 - 8 - 8)
  ok (record {
    bytes = bytes;
    appended = [];
    appended_count = 0;
    next_sequence = next_seq;
    epoch = epoch;
  })

-- `len(m.data) == 0` is tested first; with 1 to 21 bytes the slice expression would panic.
unfoldable pub existing_entries_count : Manifest → Outcome ℕ
existing_entries_count m =
    if length m.bytes == 0
    then ok 0
    else if ltb (length m.bytes) m_footer_size
    then panic
    else read_le 4 m.bytes (length m.bytes - m_footer_size)

-- The first loop of `encodeQueueEntry`, with `metadataSize` so far.
unfoldable pub metadata_size : ℕ → List QueueMetadata → Outcome ℕ
metadata_size size [] = ok size
metadata_size size (m ∷ ms) = do
  fail_if (ltb (2 ^ 32 - 1) (length m.payload)) invalid_input
  metadata_size
      (size
        + (m_start_index_size + m_ingestion_time_ms_size + m_metadata_len_size + length m.payload))
      ms

-- The second loop.
unfoldable pub append_metadata : Bytes → List QueueMetadata → Bytes
append_metadata buf [] = buf
append_metadata buf (m ∷ ms) =
    append_metadata
      ((((buf ++ le_bytes 4 m.start_index) ++ le_bytes 8 (u64_of_int m.ingestion_time_ms))
          ++ le_bytes 4 (u32 (length m.payload)))
        ++ m.payload)
      ms

unfoldable pub encode_queue_entry : QueueEntry → Outcome Bytes
encode_queue_entry entry = do
  fail_if (ltb (2 ^ 16 - 1) (length entry.location)) invalid_input
  size ← metadata_size m_metadata_count_size entry.metadata
  let body_len = m_sequence_size + m_location_len_size + length entry.location + size
  let buf = le_bytes 4 (u32 body_len) ++ le_bytes 8 entry.sequence
  let buf' = (buf ++ le_bytes 2 (u16 (length entry.location))) ++ entry.location
  ok (append_metadata (buf' ++ le_bytes 4 (u32 (length entry.metadata))) entry.metadata)

-- `(*manifest).append`: the entry gets the next sequence number, which wraps as a uint64.
unfoldable pub append : Manifest → QueueEntry → Outcome Manifest
append m entry = do
  encoded ← encode_queue_entry (record entry { sequence = m.next_sequence })
  ok (record m {
    appended = m.appended ++ encoded;
    next_sequence = u64 (m.next_sequence + 1);
    appended_count = m.appended_count + 1;
  })

-- The part of the old bytes before the footer.
unfoldable pub prefix_of : Manifest → Outcome Bytes
prefix_of m =
    if ltb 0 (length m.bytes)
    then (if ltb (length m.bytes) m_footer_size
        then panic
        else slice m.bytes 0 (length m.bytes - m_footer_size))
    else ok []

unfoldable pub to_bytes : Manifest → Outcome Bytes
to_bytes m = if length m.appended == 0 then ok m.bytes else (do
  base_count ← existing_entries_count m
  prefix' ← prefix_of m
  let total_count = u64 (base_count + m.appended_count)
  fail_if (ltb (2 ^ 32 - 1) total_count) serialization
  ok (append_footer (prefix' ++ m.appended) total_count m.next_sequence m.epoch))
