-- ===== src/Batch.antt =====
-- buffer/batch.go: the binary format of a data batch.
--   [record block, maybe compressed] [compression u8] [record count u32] [version u16]
-- `dataSize` only sets capacities there, so it has no counterpart. An int has 64 bits and holds
-- every sum of lengths and offsets that is formed, so those are plain numbers.
pub mod RoundTrip
pub mod Safety
mod Tests
use opendata_go.Base.{
  ℕ, zero, suc, ◌+◌, ◌-◌, ◌^◌, ◌≡◌, Bool, true, false, Option, none, some, List, [], ◌∷◌, ◌++◌, ltb,
  ◌==◌, not, if◌then◌else◌, length, Outcome, ok, err, ◌>>=◌, ◌>>◌, fail_if, serialization,
  invalid_input, take,
}
use opendata_go.Bytes.{Bytes, u32, le_bytes, slice, read_le, from_le}

-- klauspost/compress/zstd, as far as the two functions call it. The calls that may fail return
-- whether they succeed; `EncodeAll` appends to a slice that is empty here.
pub record Zstd : Type 0 where
  pub new_writer : Bool
  pub encode_all : Bytes → Bytes
  pub close : Bool
  pub new_reader : Bool
  pub decode_all : Bytes → Option Bytes

-- The documented contract: what is encoded can be decoded.
pub record IsLossless (z : Zstd) : Type 0 where
  pub reader_starts : z.new_reader ≡ true
  pub decode-encode : (b : Bytes) → z.decode_all (z.encode_all b) ≡ some b

-- `CompressionType` is a uint8.
abbrev pub compression_none : ℕ
compression_none = 0

abbrev pub compression_zstd : ℕ
compression_zstd = 1

abbrev pub batch_entry_len_size : ℕ
batch_entry_len_size = 4

abbrev pub batch_footer_size : ℕ
batch_footer_size = 7

abbrev pub batch_version : ℕ
batch_version = 1

-- The first loop of `EncodeBatch`.
unfoldable pub check_sizes : List Bytes → Outcome (Unit {0})
check_sizes [] = ok tt
check_sizes (e ∷ es) = do fail_if (ltb (2 ^ 32 - 1) (length e)) invalid_input; check_sizes es

-- The loop that writes the record block: a length and the entry's bytes, for each entry.
unfoldable pub append_entries : Bytes → List Bytes → Bytes
append_entries buf [] = buf
append_entries buf (e ∷ es) = append_entries ((buf ++ le_bytes 4 (u32 (length e))) ++ e) es

unfoldable pub append_footer : Bytes → ℕ → ℕ → Bytes
append_footer buf compression count =
    ((buf ++ (compression ∷ [])) ++ le_bytes 4 (u32 count)) ++ le_bytes 2 batch_version

unfoldable pub compress_block : Zstd → List Bytes → Outcome Bytes
compress_block z entries = do
  let entry_buf = append_entries [] entries
  fail_if (not z.new_writer) serialization
  let buf = z.encode_all entry_buf
  fail_if (not z.close) serialization
  ok buf

-- The `switch` of `EncodeBatch`, up to the footer.
unfoldable pub encode_block : Zstd → List Bytes → ℕ → Outcome Bytes
unfolding compress_block
encode_block z entries compression =
    if compression == compression_none
    then ok (append_entries [] entries)
    else if compression == compression_zstd
    then compress_block z entries
    else err serialization

unfoldable pub encode_batch : Zstd → List Bytes → ℕ → Outcome Bytes
unfolding check_sizes encode_block append_footer
encode_batch z entries compression = do
  check_sizes entries
  buf ← encode_block z entries compression
  ok (append_footer buf compression (length entries))

abbrev pub or_serialization : Option Bytes → Outcome Bytes
or_serialization (some d) = ok d
or_serialization none = err serialization

-- The `switch` of `DecodeBatch`.
unfoldable pub decompress_block : Zstd → Bytes → Outcome Bytes
decompress_block z block = do
  fail_if (not z.new_reader) serialization
  or_serialization (z.decode_all block)

unfoldable pub decompress : Zstd → ℕ → Bytes → Outcome Bytes
unfolding decompress_block
decompress z compression block =
    if compression == compression_none
    then ok block
    else if compression == compression_zstd
    then decompress_block z block
    else err serialization

-- The loop of `DecodeBatch`, by the number of records still to read.
unfoldable pub decode_records : ℕ → Bytes → ℕ → List Bytes → Outcome (List Bytes)
decode_records zero block offset entries = ok entries
decode_records (suc n) block offset entries = do
  fail_if (ltb (length block) (offset + batch_entry_len_size)) serialization
  entry_len ← read_le 4 block offset
  let start = offset + batch_entry_len_size
  fail_if (ltb (length block) (start + entry_len)) serialization
  entry ← slice block start (start + entry_len)
  decode_records n block (start + entry_len) (entries ++ (entry ∷ []))

unfoldable pub decode_batch : Zstd → Bytes → Outcome (List Bytes)
unfolding decode_records decompress read_le
decode_batch z bytes = do
  fail_if (ltb (length bytes) batch_footer_size) serialization
  let footer_start = length bytes - batch_footer_size
  footer ← slice bytes footer_start (length bytes)
  compression ← read_le 1 footer 0
  record_count ← read_le 4 footer 1
  version ← read_le 2 footer 5
  fail_if (not (version == batch_version)) serialization
  block ← slice bytes 0 footer_start
  entry_data ← decompress z compression block
  decode_records record_count entry_data 0 []
