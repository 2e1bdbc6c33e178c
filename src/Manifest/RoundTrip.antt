-- ===== src/Manifest/RoundTrip.antt =====
-- Decoding what `encodeQueueEntry` and `toBytes` wrote.
use opendata_go.Base.{
  drop-append, ◌-◌, ◌^◌, ◌<◌, length-append, ◌∷◌, append-nil, sym, ap, All, [], refl, append_assoc,
  ◌∙◌, ok, length, arith, ◌+◌, false, ◌++◌, ltb, ◌≡◌, ◌≤◌, drop, ℕ, List,
}
use opendata_go.Bytes.{Bytes, le_bytes, read_le, u64_of_int}
use opendata_go.Bytes.Laws.{cut_at, read_at, u64_of_int-lt, int_of_u64-u64_of_int}
use opendata_go.Manifest.{QueueMetadata, QueueEntry, manifest_version}
use opendata_go.Manifest.Layout.{
  range_bytes, ranges_bytes, body_bytes, entry_bytes, entries_bytes, footer_bytes, IsRange, IsEntry,
  length-range_bytes, length-body_bytes, length-entry_bytes, length-footer_bytes,
}
use opendata_go.Manifest.Decode.{
  decode_range, decode_metadata, decode_queue_entry, decode_entries, decode_manifest_entries,
}

pub not-ltb : (a b : ℕ) → b ≤ a → ltb a b ≡ false
not-ltb a b h = ground arith

decode_range_lem :
    (m : QueueMetadata) (bytes rest : Bytes) (entry_end offset : ℕ)
    → IsRange m
    → drop offset bytes ≡ range_bytes m ++ rest
    → offset + length (range_bytes m) ≤ entry_end
    → entry_end ≤ length bytes
    → (decode_range bytes entry_end offset ≡ ok (m, offset + length (range_bytes m)))
      × (drop (offset + length (range_bytes m)) bytes ≡ rest)
unfolding decode_range range_bytes
decode_range_lem m bytes rest entry_end offset h e fits inside =
    let size = length-range_bytes m in
    let time = u64_of_int m.ingestion_time_ms in
    let (start, e1) =
      read_at 4 m.start_index bytes
        (le_bytes 8 time ++ (le_bytes 4 (length m.payload) ++ (m.payload ++ rest))) offset
        (offset + 4) (e ∙ simp append_assoc) (omega (arith, h.start_fits)) refl (omega arith) in
    let (at_time, e2) =
      read_at 8 time bytes (le_bytes 4 (length m.payload) ++ (m.payload ++ rest)) (offset + 4)
        (offset + 4 + 8) e1 (omega (arith, u64_of_int-lt m.ingestion_time_ms)) refl (omega arith) in
    let (at_len, e3) =
      read_at 4 (length m.payload) bytes (m.payload ++ rest) (offset + 4 + 8) (offset + 4 + 8 + 4)
        e2 (omega (arith, h.payload_fits)) refl (omega arith) in
    let (payload, e4) =
      cut_at bytes m.payload rest (offset + 4 + 8 + 4) (offset + 4 + 8 + 4 + length m.payload) e3
        refl (omega arith) in
    let whole : offset + 4 + 8 + 4 + length m.payload ≡ offset + length (range_bytes m) =
      omega arith in
    (
      rw (
        not-ltb entry_end (offset + 4) (omega arith),
        start,
        not-ltb entry_end (offset + 4 + 8) (omega arith),
        at_time,
        not-ltb entry_end (offset + 4 + 8 + 4) (omega arith),
        at_len,
        not-ltb entry_end (offset + 4 + 8 + 4 + length m.payload) (omega arith),
        payload,
        int_of_u64-u64_of_int m.ingestion_time_ms h.time_fits,
        whole,
      ),
      rw whole at e4,
    )

decode_metadata_lem :
    (ms : List QueueMetadata) (bytes rest : Bytes) (entry_end offset : ℕ) (acc : List QueueMetadata)
    → All IsRange ms
    → drop offset bytes ≡ ranges_bytes ms ++ rest
    → offset + length (ranges_bytes ms) ≤ entry_end
    → entry_end ≤ length bytes
    → decode_metadata (length ms) bytes entry_end offset acc ≡ ok (acc ++ ms)
unfolding decode_metadata ranges_bytes
decode_metadata_lem [] bytes rest entry_end offset acc h e fits inside =
    ap ok (sym (append-nil acc))
decode_metadata_lem (m ∷ ms) bytes rest entry_end offset acc h e fits inside =
    let size = length-append (range_bytes m) (ranges_bytes ms) in
    let (read, after) =
      decode_range_lem m bytes (ranges_bytes ms ++ rest) entry_end offset h.0
        (e ∙ append_assoc (range_bytes m) (ranges_bytes ms) rest) (omega arith) inside in
    rw read (
      decode_metadata_lem ms bytes rest entry_end (offset + length (range_bytes m))
        (acc ++ (m ∷ [])) h.1 after (omega arith) inside
      ∙ ap ok (append_assoc acc (m ∷ []) ms))

decode_queue_entry_lem :
    (q : QueueEntry) (bytes rest : Bytes) (offset end : ℕ)
    → IsEntry q
    → drop offset bytes ≡ entry_bytes q ++ rest
    → offset + length (entry_bytes q) ≤ end
    → end ≤ length bytes
    → (decode_queue_entry bytes offset end ≡ ok (q, offset + length (entry_bytes q)))
      × (drop (offset + length (entry_bytes q)) bytes ≡ rest)
unfolding decode_queue_entry entry_bytes
decode_queue_entry_lem q bytes rest offset end h e fits inside =
    let size = length-entry_bytes q in
    let body = length-body_bytes q in
    let n = length (body_bytes q) in
    let l = length q.location in
    let tail4 = ranges_bytes q.metadata ++ rest in
    let tail3 = le_bytes 4 (length q.metadata) ++ tail4 in
    let tail2 = q.location ++ tail3 in
    let tail1 = le_bytes 2 l ++ tail2 in
    let shape : body_bytes q ++ rest ≡ le_bytes 8 q.sequence ++ tail1 =
      unfold body_bytes in simp append_assoc in
    let (at_len, e1) =
      read_at 4 n bytes (body_bytes q ++ rest) offset (offset + 4)
        (e ∙ append_assoc (le_bytes 4 n) (body_bytes q) rest) (omega (arith, h.body_fits)) refl
        (omega arith) in
    let (_, after) =
      cut_at bytes (body_bytes q) rest (offset + 4) (offset + 4 + n) e1 refl (omega arith) in
    let (at_seq, e2) =
      read_at 8 q.sequence bytes tail1 (offset + 4) (offset + 4 + 8) (e1 ∙ shape)
        (omega (arith, h.sequence_fits)) refl (omega arith) in
    let (at_loc_len, e3) =
      read_at 2 l bytes tail2 (offset + 4 + 8) (offset + 4 + 8 + 2) e2
        (omega (arith, h.location_fits)) refl (omega arith) in
    let (at_loc, e4) =
      cut_at bytes q.location tail3 (offset + 4 + 8 + 2) (offset + 4 + 8 + 2 + l) e3 refl
        (omega arith) in
    let (at_count, e5) =
      read_at 4 (length q.metadata) bytes tail4 (offset + 4 + 8 + 2 + l)
        (offset + 4 + 8 + 2 + l + 4) e4 (omega (arith, h.count_fits)) refl (omega arith) in
    let whole : offset + 4 + n ≡ offset + length (entry_bytes q) = omega arith in
    (
      rw (
        not-ltb end (offset + 4) (omega arith),
        at_len,
        not-ltb end (offset + 4 + n) (omega arith),
        at_seq,
        at_loc_len,
        not-ltb (offset + 4 + n) (offset + 4 + 8 + 2 + l + 4) (omega arith),
        at_loc,
        at_count,
        decode_metadata_lem q.metadata bytes rest (offset + 4 + n) (offset + 4 + 8 + 2 + l + 4) []
            h.ranges e5 (omega arith) (omega arith),
        whole,
      ),
      rw whole at after,
    )

decode_entries_lem :
    (es : List QueueEntry) (bytes rest : Bytes) (offset end : ℕ) (acc : List QueueEntry)
    → All IsEntry es
    → drop offset bytes ≡ entries_bytes es ++ rest
    → offset + length (entries_bytes es) ≤ end
    → end ≤ length bytes
    → decode_entries (length es) bytes offset end acc ≡ ok (acc ++ es)
unfolding decode_entries entries_bytes
decode_entries_lem [] bytes rest offset end acc h e fits inside = ap ok (sym (append-nil acc))
decode_entries_lem (q ∷ es) bytes rest offset end acc h e fits inside =
    let size = length-append (entry_bytes q) (entries_bytes es) in
    let (read, after) =
      decode_queue_entry_lem q bytes (entries_bytes es ++ rest) offset end h.0
        (e ∙ append_assoc (entry_bytes q) (entries_bytes es) rest) (omega arith) inside in
    rw read (
      decode_entries_lem es bytes rest (offset + length (entry_bytes q)) end (acc ++ (q ∷ [])) h.1
        after (omega arith) inside
      ∙ ap ok (append_assoc acc (q ∷ []) es))

-- `DecodeManifestEntries` reads any list of well-formed entries back from its bytes.
pub decode_manifest_entries_lem :
    (es : List QueueEntry) (next epoch : ℕ)
    → All IsEntry es
    → length es < 2 ^ 32
    → decode_manifest_entries (entries_bytes es ++ footer_bytes (length es) next epoch) ≡ ok es
unfolding decode_manifest_entries footer_bytes
decode_manifest_entries_lem es next epoch h few =
    rw (not-ltb (length bytes) 22 (omega (arith, total)), start, at_count.0)
      (decode_entries_lem es bytes (footer_bytes (length es) next epoch) 0 n [] h refl (omega arith)
        (omega (arith, total)))
  where
    n : ℕ
    n = length (entries_bytes es)

    bytes : Bytes
    bytes = entries_bytes es ++ footer_bytes (length es) next epoch

    total : length bytes ≡ n + 22
    total =
        length-append (entries_bytes es) (footer_bytes (length es) next epoch)
        ∙ ap (λ t. n + t) (length-footer_bytes (length es) next epoch)

    start : length bytes - 22 ≡ n
    start = omega (arith, total)

    at_count :
        (read_le 4 bytes n ≡ ok (length es))
        × (drop (n + 4) bytes
            ≡ le_bytes 8 next ++ (le_bytes 8 epoch ++ le_bytes 2 manifest_version))
    at_count =
        read_at 4 (length es) bytes
          (le_bytes 8 next ++ (le_bytes 8 epoch ++ le_bytes 2 manifest_version)) n (n + 4)
          (drop-append n (entries_bytes es) (footer_bytes (length es) next epoch) refl) few refl
          (omega (arith, total))
