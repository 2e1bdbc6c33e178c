-- ===== src/Batch/RoundTrip.antt =====
-- buffer/batch.go: `DecodeBatch` on what `EncodeBatch` wrote.
use opendata_go.Base.{
  ℕ, ◌+◌, ◌-◌, ◌^◌, ◌<◌, ◌≡◌, refl, sym, ap, ◌∙◌, List, [], ◌∷◌, ◌++◌, append-nil, append_assoc,
  arith, ltb, length, length-append, ok, false, ◌>>=◌, inl, inr, >>=-eq-ok, ◌⊎◌,
}
use opendata_go.Bytes.{Bytes, u32, le_bytes, slice, read_le}
use opendata_go.Bytes.Laws.{one_byte, length-le_bytes, slice-append, read_le-append}
use opendata_go.Batch.{
  Zstd, IsLossless, append_entries, append_footer, encode_block, check_sizes, encode_batch,
  decompress, decode_records, decode_batch, batch_version, compression_none, compression_zstd,
}

-- The record block as a plain recursion.
unfoldable pub block_of : List Bytes → Bytes
block_of [] = []
block_of (e ∷ es) = le_bytes 4 (length e) ++ (e ++ block_of es)

-- Every entry's length fits the length field.
abbrev pub AllFit : List Bytes → Type 0
AllFit [] = Unit
AllFit (e ∷ es) = (length e < 2 ^ 32) × AllFit es

append_entries-block_of :
    (buf : Bytes) (es : List Bytes) → AllFit es → append_entries buf es ≡ buf ++ block_of es
unfolding append_entries block_of
append_entries-block_of buf [] h = sym (append-nil buf)
append_entries-block_of buf (e ∷ es) h =
    let fits : u32 (length e) ≡ length e = omega arith in
    rw fits
      (append_entries-block_of ((buf ++ le_bytes 4 (length e)) ++ e) es h.1 ∙ simp append_assoc)

pub check_sizes-AllFit : (es : List Bytes) {u : Unit {0}} → check_sizes es ≡ ok u → AllFit es
unfolding check_sizes
check_sizes-AllFit [] h = tt
check_sizes-AllFit (e ∷ es) h = ground (arith, check_sizes-AllFit es)

decode_records-block_of :
    (es : List Bytes) (block pre post : Bytes) (offset : ℕ) (acc : List Bytes)
    → block ≡ pre ++ (block_of es ++ post)
    → length pre ≡ offset
    → AllFit es
    → decode_records (length es) block offset acc ≡ ok (acc ++ es)
unfolding decode_records block_of
decode_records-block_of [] block pre post offset acc e l h = ap ok (sym (append-nil acc))
decode_records-block_of (x ∷ es) block pre post offset acc e l h =
    rw (room, len, room', entry)
      (decode_records-block_of es block ((pre ++ le_bytes 4 (length x)) ++ x) post
          (offset + 4 + length x) (acc ++ (x ∷ [])) (e ∙ simp append_assoc) (omega (arith, sizes))
          h.1
        ∙ ap ok (append_assoc acc (x ∷ []) es))
  where
    at_len : block ≡ pre ++ (le_bytes 4 (length x) ++ (x ++ (block_of es ++ post)))
    at_len = e ∙ simp append_assoc

    at_entry : block ≡ (pre ++ le_bytes 4 (length x)) ++ (x ++ (block_of es ++ post))
    at_entry = e ∙ simp append_assoc

    sizes :
        (length block ≡ offset + 4 + length x + length (block_of es ++ post))
        × (length ((pre ++ le_bytes 4 (length x)) ++ x) ≡ offset + 4 + length x)
        × (length (pre ++ le_bytes 4 (length x)) ≡ offset + 4)
    sizes =
        let a = length-append pre (le_bytes 4 (length x)) in
        let b = length-append (pre ++ le_bytes 4 (length x)) x in
        let c = length-append (pre ++ le_bytes 4 (length x)) (x ++ (block_of es ++ post)) in
        let d = length-append x (block_of es ++ post) in
        let n = length-le_bytes 4 (length x) in omega (arith, ap length at_entry, a, b, c, d, n, l)

    room : ltb (length block) (offset + 4) ≡ false
    room = ground (arith, sizes)

    len : read_le 4 block offset ≡ ok (length x)
    len = rw at_len (read_le-append 4 (length x) pre _ offset l (omega arith))

    room' : ltb (length block) (offset + 4 + length x) ≡ false
    room' = ground (arith, sizes)

    entry : slice block (offset + 4) (offset + 4 + length x) ≡ ok x
    entry = rw at_entry (
        slice-append (pre ++ le_bytes 4 (length x)) x _ (offset + 4) (offset + 4 + length x)
          (omega (arith, sizes)) refl)

-- The seven bytes behind the record block.
abbrev pub footer_of : ℕ → ℕ → Bytes
footer_of compression count = (compression ∷ []) ++ (le_bytes 4 count ++ le_bytes 2 batch_version)

append_footer_parts :
    (buf : Bytes) (compression count : ℕ)
    → count < 2 ^ 32
    → append_footer buf compression count ≡ buf ++ footer_of compression count
unfolding append_footer
append_footer_parts buf compression count h =
    let fits : u32 count ≡ count = omega arith in rw fits (simp append_assoc)

module _ (compression count : ℕ) (hc : compression < 256) (hn : count < 2 ^ 32) where
  pub length-footer_of : length (footer_of compression count) ≡ 7
  length-footer_of = omega (
    arith,
    length-append (le_bytes 4 count) (le_bytes 2 batch_version),
    length-le_bytes 4 count,
    length-le_bytes 2 batch_version,
  )

  footer_compression : read_le 1 (footer_of compression count) 0 ≡ ok compression
  footer_compression =
      rw (one_byte compression hc) at
        (read_le-append 1 compression [] (le_bytes 4 count ++ le_bytes 2 batch_version) 0 refl hc)

  footer_count : read_le 4 (footer_of compression count) 1 ≡ ok count
  footer_count = read_le-append 4 count (compression ∷ []) (le_bytes 2 batch_version) 1 refl hn

  footer_version : read_le 2 (footer_of compression count) 5 ≡ ok batch_version
  footer_version = rw append-nil at (
      read_le-append 2 batch_version ((compression ∷ []) ++ le_bytes 4 count) [] 5
        (omega (arith, length-le_bytes 4 count)) (omega arith))

  -- On a batch with this footer, `DecodeBatch` gets to the record loop.
  pub decode_batch_footer :
      (z : Zstd) (buf : Bytes)
      → decode_batch z (buf ++ footer_of compression count)
        ≡ (do entry_data ← decompress z compression buf; decode_records count entry_data 0 [])
  unfolding decode_batch
  decode_batch_footer z buf =
      rw (long, start, cut, footer_compression, footer_count, footer_version, front)
    where
      total : length (buf ++ footer_of compression count) ≡ length buf + 7
      total = omega (arith, length-append buf (footer_of compression count), length-footer_of)

      long : ltb (length (buf ++ footer_of compression count)) 7 ≡ false
      long = ground (arith, total)

      start : length (buf ++ footer_of compression count) - 7 ≡ length buf
      start = omega (arith, total)

      cut :
          slice
            (buf ++ footer_of compression count)
            (length buf)
            (length (buf ++ footer_of compression count))
          ≡ ok (footer_of compression count)
      cut = rw append-nil at (
          slice-append buf (footer_of compression count) [] (length buf)
            (length (buf ++ footer_of compression count)) refl
            (omega (arith, total, length-footer_of)))

      front : slice (buf ++ footer_of compression count) 0 (length buf) ≡ ok buf
      front = slice-append [] buf (footer_of compression count) 0 (length buf) refl (omega arith)

encode_block-known :
    (z : Zstd) (es : List Bytes) (compression : ℕ) (buf : Bytes)
    → encode_block z es compression ≡ ok buf
    → (compression ≡ compression_none) ⊎ (compression ≡ compression_zstd)
unfolding encode_block
encode_block-known z es compression buf e = ground arith

decompress-encode_block :
    (z : Zstd) (es : List Bytes) (compression : ℕ) (buf : Bytes)
    → (compression ≡ compression_zstd → IsLossless z)
    → encode_block z es compression ≡ ok buf
    → decompress z compression buf ≡ ok (append_entries [] es)
unfolding encode_block decompress
decompress-encode_block z es compression buf lossless e =
    elim (encode_block-known z es compression buf e) [
      | inl plain ↦ ground arith
      | inr packed ↦
          let l = lossless packed in
          ground (arith, l.reader_starts, l.decode-encode (append_entries [] es))
    ]

-- A batch of fewer than 2^32 entries that `EncodeBatch` accepts is decoded to the same entries, in
-- both formats; for zstd this rests on the library being lossless.
pub decode_batch-encode_batch :
    (z : Zstd) (es : List Bytes) (compression : ℕ) (bytes : Bytes)
    → (compression ≡ compression_zstd → IsLossless z)
    → length es < 2 ^ 32
    → encode_batch z es compression ≡ ok bytes
    → decode_batch z bytes ≡ ok es
unfolding encode_batch
decode_batch-encode_batch z es compression bytes lossless h e =
    let (_, sizes, e') = >>=-eq-ok (check_sizes es) _ e in
    let (buf, block, e'') = >>=-eq-ok (encode_block z es compression) _ e' in
    let known : compression < 256 = ground (arith, encode_block-known z es compression buf block) in
    let fits = check_sizes-AllFit es sizes in
    let shape : bytes ≡ buf ++ footer_of compression (length es) =
      cc (e'', append_footer_parts buf compression (length es) h) in
    let written : append_entries [] es ≡ [] ++ (block_of es ++ []) =
      append_entries-block_of [] es fits ∙ sym (append-nil (block_of es)) in
    rw
      (
        shape,
        decode_batch_footer compression (length es) known h z buf,
        decompress-encode_block z es compression buf lossless block,
      )
      (decode_records-block_of es (append_entries [] es) [] [] 0 [] written refl fits)
