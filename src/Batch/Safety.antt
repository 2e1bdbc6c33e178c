-- ===== src/Batch/Safety.antt =====
-- buffer/batch.go: `DecodeBatch` on any input, well formed or not.
use opendata_go.Base.{
  ◌≤◌, false, err, ap, refl, if◌then◌else◌, not, ◌-◌, fail_if-eq-ok, fail_if-ne-panic, >>=-ne-panic,
  append_assoc, serialization, append-nil, ◌∙◌, fail_if, subst, >>=-eq-ok, ok-injective, ◌==◌, sym,
  ◌∷◌, inr, inl, ◌+◌, zero, ltb, [], drop, Bool-cases, length, suc, arith, ◌++◌, panic, All, some,
  ◌≢◌, List, ℕ, ◌≡◌, ok,
}
use opendata_go.Bytes.{Bytes, IsByte, le_bytes, slice, read_le}
use opendata_go.Bytes.Laws.{
  drop_all, one_byte, slice-ne-panic, read_le-ne-panic, slice_parts, slice-IsByte, read_le_parts,
}
use opendata_go.Batch.{
  decompress_block, Zstd, decompress, decode_records, decode_batch, batch_version,
}
use opendata_go.Batch.RoundTrip.{block_of, footer_of}

-- What the record loop does on entering a round: both cuts lie inside the block once the two
-- checks have passed.
decode_records-ne-panic :
    (n : ℕ) (block : Bytes) (offset : ℕ) (acc : List Bytes)
    → decode_records n block offset acc ≢ panic
unfolding decode_records
decode_records-ne-panic zero block offset acc = λ e. cc
decode_records-ne-panic (suc n) block offset acc =
    >>=-ne-panic (fail_if (ltb (length block) (offset + 4)) serialization) _ (fail_if-ne-panic _ _)
      λ _ room.
        let room' = fail_if-eq-ok _ serialization room in
        >>=-ne-panic (read_le 4 block offset) _ (read_le-ne-panic 4 block offset (ground arith))
          λ len _.
            >>=-ne-panic (fail_if (ltb (length block) (offset + 4 + len)) serialization) _
              (fail_if-ne-panic _ _)
              λ _ fits.
                let fits' = fail_if-eq-ok _ serialization fits in
                >>=-ne-panic (slice block (offset + 4) (offset + 4 + len)) _
                  (slice-ne-panic block (offset + 4) (offset + 4 + len) (omega arith)
                    (ground arith))
                  λ x _. decode_records-ne-panic n block (offset + 4 + len) (acc ++ (x ∷ []))

decompress-ne-panic : (z : Zstd) (c : ℕ) (block : Bytes) → decompress z c block ≢ panic
unfolding decompress
decompress-ne-panic z c block = ground arith

-- What zstd returns is a byte slice.
pub record YieldsBytes (z : Zstd) : Type 0 where
  pub decoded : (b d : Bytes) → All IsByte b → z.decode_all b ≡ some d → All IsByte d

decompress-IsByte :
    (z : Zstd) (c : ℕ) (block : Bytes) {d : Bytes}
    → YieldsBytes z
    → All IsByte block
    → decompress z c block ≡ ok d
    → All IsByte d
unfolding decompress
decompress-IsByte z c block {d} y h e = elim (Bool-cases (c == 0)) [
  | inl plain ↦
      let same : ok block ≡ ok d = rw plain at e in subst (All IsByte) (ok-injective same) h
  | inr other ↦
      let packed : (if c == 1 then decompress_block z block else err serialization) ≡ ok d =
        rw other at e in
      y.decoded block d h (unfold decompress_block in ground arith)
]

-- One round of the record loop, taken apart.
decode_records_step :
    (n : ℕ) (block : Bytes) (offset : ℕ) (acc : List Bytes) {out : List Bytes}
    → decode_records (suc n) block offset acc ≡ ok out
    → (len : ℕ) × (x : Bytes) × (read_le 4 block offset ≡ ok len)
      × (slice block (offset + 4) (offset + 4 + len) ≡ ok x)
      × (decode_records n block (offset + 4 + len) (acc ++ (x ∷ [])) ≡ ok out)
unfolding decode_records
decode_records_step n block offset acc e =
    let (_, _, e1) = >>=-eq-ok (fail_if (ltb (length block) (offset + 4)) serialization) _ e in
    let (len, read, e2) = >>=-eq-ok (read_le 4 block offset) _ e1 in
    let (_, _, e3) =
      >>=-eq-ok (fail_if (ltb (length block) (offset + 4 + len)) serialization) _ e2 in
    let (x, cut, e4) = >>=-eq-ok (slice block (offset + 4) (offset + 4 + len)) _ e3 in
    (len, x, read, cut, e4)

-- What the loop returns stands in the block, one framed record after the other.
decode_records_sound :
    (n : ℕ) (block : Bytes) (offset : ℕ) (acc : List Bytes) {out : List Bytes}
    → All IsByte block
    → decode_records n block offset acc ≡ ok out
    → (es : List Bytes) × (rest : Bytes) × (out ≡ acc ++ es)
      × (length es ≡ n)
      × (drop offset block ≡ block_of es ++ rest)
unfolding block_of
decode_records_sound zero block offset acc {out} h e =
    let same : ok acc ≡ ok out = unfold decode_records in e in
    ([], drop offset block, sym (ok-injective same) ∙ sym (append-nil acc), refl, refl)
decode_records_sound (suc n) block offset acc h e =
    let (len, x, read, cut, e') = decode_records_step n block offset acc e in
    let (es, rest, all, count, parts) =
      decode_records_sound n block (offset + 4 + len) (acc ++ (x ∷ [])) h e' in
    let (_, _, at_len) = read_le_parts 4 block offset h read in
    let (_, _, size, at_entry) = slice_parts block (offset + 4) (offset + 4 + len) cut in
    let size' : length x ≡ len = omega arith in
    (
      x ∷ es,
      rest,
      all ∙ append_assoc acc (x ∷ []) es,
      omega arith,
      rw (at_len, at_entry, parts, size') (simp append_assoc),
    )

-- The three fields that are read fill the seven bytes.
footer_parts :
    (footer : Bytes) {c count version : ℕ}
    → All IsByte footer
    → length footer ≡ 7
    → read_le 1 footer 0 ≡ ok c
    → read_le 4 footer 1 ≡ ok count
    → read_le 2 footer 5 ≡ ok version
    → footer ≡ (c ∷ []) ++ (le_bytes 4 count ++ le_bytes 2 version)
footer_parts footer {c} {count} {version} h size at_c at_count at_version =
    let (byte, _, first) = read_le_parts 1 footer 0 h at_c in
    let (_, _, second) = read_le_parts 4 footer 1 h at_count in
    let (_, _, third) = read_le_parts 2 footer 5 h at_version in
    let first' : footer ≡ (c ∷ []) ++ drop 1 footer = rw (one_byte c byte) at first in
    let third' : drop 5 footer ≡ le_bytes 2 version =
      third ∙ rw (drop_all 7 footer (omega arith), append-nil) in
    first' ∙ ap (λ t. (c ∷ []) ++ t) (second ∙ ap (λ t. le_bytes 4 count ++ t) third')

-- `DecodeBatch` returns a batch or an error on every input: no slice expression is out of range.
pub decode_batch-ne-panic : (z : Zstd) (bytes : Bytes) → decode_batch z bytes ≢ panic
unfolding decode_batch
decode_batch-ne-panic z bytes =
    >>=-ne-panic (fail_if (ltb (length bytes) 7) serialization) _ (fail_if-ne-panic _ _) λ _ long.
      let long' = fail_if-eq-ok _ serialization long in
      >>=-ne-panic (slice bytes (length bytes - 7) (length bytes)) _
        (slice-ne-panic bytes (length bytes - 7) (length bytes) (omega arith) (omega arith))
        λ footer cut.
          let (_, _, size, _) = slice_parts bytes (length bytes - 7) (length bytes) cut in
          let seven : length footer ≡ 7 = ground arith in
          >>=-ne-panic (read_le 1 footer 0) _ (read_le-ne-panic 1 footer 0 (omega arith)) λ c _.
            >>=-ne-panic (read_le 4 footer 1) _ (read_le-ne-panic 4 footer 1 (omega arith))
              λ count _.
                >>=-ne-panic (read_le 2 footer 5) _ (read_le-ne-panic 2 footer 5 (omega arith))
                  λ version _.
                    >>=-ne-panic (fail_if (not (version == batch_version)) serialization) _
                      (fail_if-ne-panic _ _)
                      λ _ _.
                        >>=-ne-panic (slice bytes 0 (length bytes - 7)) _
                          (slice-ne-panic bytes 0 (length bytes - 7) (omega arith) (omega arith))
                          λ block _.
                            >>=-ne-panic (decompress z c block) _ (decompress-ne-panic z c block)
                              λ entry_data _. decode_records-ne-panic count entry_data 0 []

-- What an accepted batch went through.
record Accepted (z : Zstd) (bytes : Bytes) (es : List Bytes) : Type 0 where
  c : ℕ
  count : ℕ
  version : ℕ
  footer : Bytes
  block : Bytes
  entry_data : Bytes
  long : ltb (length bytes) 7 ≡ false
  cut : slice bytes (length bytes - 7) (length bytes) ≡ ok footer
  at_c : read_le 1 footer 0 ≡ ok c
  at_count : read_le 4 footer 1 ≡ ok count
  at_version : read_le 2 footer 5 ≡ ok version
  current : not (version == batch_version) ≡ false
  front : slice bytes 0 (length bytes - 7) ≡ ok block
  unpacked : decompress z c block ≡ ok entry_data
  records : decode_records count entry_data 0 [] ≡ ok es

decode_batch_steps :
    (z : Zstd) (bytes : Bytes) (es : List Bytes)
    → decode_batch z bytes ≡ ok es
    → Accepted z bytes es
unfolding decode_batch
decode_batch_steps z bytes es e =
    let n = length bytes - 7 in
    let (_, long, e1) = >>=-eq-ok (fail_if (ltb (length bytes) 7) serialization) _ e in
    let (footer, cut, e2) = >>=-eq-ok (slice bytes n (length bytes)) _ e1 in
    let (c, at_c, e3) = >>=-eq-ok (read_le 1 footer 0) _ e2 in
    let (count, at_count, e4) = >>=-eq-ok (read_le 4 footer 1) _ e3 in
    let (version, at_version, e5) = >>=-eq-ok (read_le 2 footer 5) _ e4 in
    let (_, current, e6) =
      >>=-eq-ok (fail_if (not (version == batch_version)) serialization) _ e5 in
    let (block, front, e7) = >>=-eq-ok (slice bytes 0 n) _ e6 in
    let (entry_data, unpacked, e8) = >>=-eq-ok (decompress z c block) _ e7 in
    record {
      c = c;
      count = count;
      version = version;
      footer = footer;
      block = block;
      entry_data = entry_data;
      long = fail_if-eq-ok _ serialization long;
      cut = cut;
      at_c = at_c;
      at_count = at_count;
      at_version = at_version;
      current = fail_if-eq-ok _ serialization current;
      front = front;
      unpacked = unpacked;
      records = e8;
    }

Accepted-parts :
    (z : Zstd) (bytes : Bytes) (es : List Bytes) (a : Accepted z bytes es)
    → All IsByte bytes
    → length es ≡ a.count
    → bytes ≡ a.block ++ footer_of a.c (length es)
Accepted-parts z bytes es a h same =
    let (_, _, size, back) = slice_parts bytes (length bytes - 7) (length bytes) a.cut in
    let (_, _, _, front) = slice_parts bytes 0 (length bytes - 7) a.front in
    let long' : 7 ≤ length bytes = ground (arith, a.long) in
    let fields =
      footer_parts a.footer (slice-IsByte bytes _ _ h a.cut) (omega arith) a.at_c a.at_count
        a.at_version in
    let now : a.version ≡ batch_version = ground (arith, a.current) in
    let whole : a.footer ≡ footer_of a.c (length es) = rw (same, ← now) fields in
    let back' : drop (length bytes - 7) bytes ≡ a.footer =
      back ∙ rw (drop_all (length bytes) bytes (omega arith), append-nil) in
    front ∙ ap (λ t. a.block ++ t) (back' ∙ whole)

-- An accepted batch is a record block and a footer of seven bytes that carries the number of the
-- returned entries and the version; the entries stand at the front of the decompressed block, each
-- behind its length. (Bytes behind the last entry are not looked at.)
pub decode_batch_sound :
    (z : Zstd) (bytes : Bytes) (es : List Bytes)
    → YieldsBytes z
    → All IsByte bytes
    → decode_batch z bytes ≡ ok es
    → (compression : ℕ) × (block entry_data rest : Bytes) × (bytes
        ≡ block ++ footer_of compression (length es))
      × (decompress z compression block ≡ ok entry_data)
      × (entry_data ≡ block_of es ++ rest)
decode_batch_sound z bytes es y h e =
    let a = decode_batch_steps z bytes es e in
    let packed = slice-IsByte bytes 0 (length bytes - 7) h a.front in
    let (es', rest, all, size, parts) =
      decode_records_sound a.count a.entry_data 0 []
        (decompress-IsByte z a.c a.block y packed a.unpacked) a.records in
    let same : length es ≡ a.count = ap length all ∙ size in
    (
      a.c,
      a.block,
      a.entry_data,
      rest,
      Accepted-parts z bytes es a h same,
      a.unpacked,
      parts ∙ ap (λ t. block_of t ++ rest) (sym all),
    )
