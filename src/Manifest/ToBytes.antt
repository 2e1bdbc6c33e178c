-- ===== src/Manifest/ToBytes.antt =====
-- buffer/manifest.go: what `toBytes` writes and `manifestFromBytes` reads.
use opendata_go.Base.{
  serialization, err, ◌≤◌, ◌==◌, true, ◌≢◌, refl, ◌<◌, All-append, length-append, false, ◌-◌, [],
  ◌^◌, append_assoc, ltb, ◌∙◌, arith, ap, ◌∷◌, append-nil, length, ◌+◌, ok, ◌++◌, ◌≡◌, All, ℕ, List,
}
use opendata_go.Bytes.{Bytes, u32, u64, slice, read_le}
use opendata_go.Manifest.{QueueEntry, Manifest}
use opendata_go.Manifest.Layout.{
  entry_bytes, entries_bytes, footer_bytes, IsEntry, length-entry_bytes, entries_bytes-append,
}
use opendata_go.Manifest.Encode.{
  append_footer, manifest_from_bytes, existing_entries_count, prefix_of, to_bytes,
}
use opendata_go.Manifest.Decode.{decode_manifest_entries}
use opendata_go.Manifest.Footer.{footer_fields}
use opendata_go.Manifest.RoundTrip.{decode_manifest_entries_lem, not-ltb}
use opendata_go.Bytes.Laws.{slice-append}
use opendata_go.Manifest.Append.{Represents}

entries_bytes_pos : (es : List QueueEntry) → es ≢ [] → 0 < length (entries_bytes es)
unfolding entries_bytes
entries_bytes_pos [] h = absurd (h refl)
entries_bytes_pos (q ∷ es) h =
    omega (arith, length-append (entry_bytes q) (entries_bytes es), length-entry_bytes q)

append_footer-footer_bytes :
    (buf : Bytes) (count next epoch : ℕ)
    → count < 2 ^ 32
    → next < 2 ^ 64
    → epoch < 2 ^ 64
    → append_footer buf count next epoch ≡ buf ++ footer_bytes count next epoch
unfolding append_footer footer_bytes
append_footer-footer_bytes buf count next epoch hc hn he =
    let c : u32 count ≡ count = omega arith in
    let n : u64 next ≡ next = omega arith in
    let e : u64 epoch ≡ epoch = omega arith in rw (c, n, e) (simp append_assoc)

module _ {m : Manifest} {old new : List QueueEntry} (r : Represents m old new) where
  fields :
      (length m.bytes ≡ length (entries_bytes old) + 22)
      × (read_le 4 m.bytes (length (entries_bytes old)) ≡ ok (length old))
  fields =
      let (total, count, _, _, _) =
        footer_fields (entries_bytes old) (length old) r.first m.epoch r.old_few r.first_fits
          r.epoch_fits m.bytes (length (entries_bytes old)) r.bytes_are refl in
      (total, count)

  existing_entries_count_lem : existing_entries_count m ≡ ok (length old)
  unfolding existing_entries_count
  existing_entries_count_lem =
      let (total, count) = fields in
      let start : length m.bytes - 22 ≡ length (entries_bytes old) = omega arith in
      let full : (length m.bytes == 0) ≡ false = ground arith in
      rw (full, not-ltb (length m.bytes) 22 (omega arith), start) count

  prefix_of_lem : prefix_of m ≡ ok (entries_bytes old)
  unfolding prefix_of
  prefix_of_lem =
      let (total, _) = fields in
      let start : length m.bytes - 22 ≡ length (entries_bytes old) = omega arith in
      let full : ltb 0 (length m.bytes) ≡ true = ground arith in
      let cut : slice m.bytes 0 (length (entries_bytes old)) ≡ ok (entries_bytes old) =
        ap (λ t. slice t 0 (length (entries_bytes old))) r.bytes_are
        ∙ slice-append [] (entries_bytes old) _ 0 (length (entries_bytes old)) refl (omega arith) in
      rw (full, not-ltb (length m.bytes) 22 (omega arith), start) cut

  appended_full : new ≢ [] → (length m.appended == 0) ≡ false
  appended_full some =
      let pos = ap length r.appended_are in ground (arith, pos, entries_bytes_pos new some)

  pub to_bytes_lem :
      new ≢ []
      → length old + length new < 2 ^ 32
      → to_bytes m
        ≡ ok (
            entries_bytes (old ++ new)
            ++ footer_bytes (length (old ++ new)) m.next_sequence m.epoch)
  unfolding to_bytes
  to_bytes_lem some few =
      let count : u64 (length old + m.appended_count) ≡ length (old ++ new) =
        omega (arith, r.count_is, length-append old new) in
      let full : (length m.appended == 0) ≡ false = appended_full some in
      let fits : ltb (2 ^ 32 - 1) (length (old ++ new)) ≡ false =
        not-ltb _ _ (omega (arith, length-append old new)) in
      rw
        (
          full,
          existing_entries_count_lem,
          prefix_of_lem,
          count,
          fits,
          r.appended_are,
          ← entries_bytes-append old new,
        )
        (ap ok (
          append_footer-footer_bytes (entries_bytes (old ++ new)) (length (old ++ new))
            m.next_sequence m.epoch (omega (arith, length-append old new))
            (omega (arith, r.next_is)) r.epoch_fits))

  -- More entries than a uint32 counts are refused.
  pub to_bytes_overflow :
      2 ^ 32 ≤ length old + length new → length new < 2 ^ 63 → to_bytes m ≡ err serialization
  unfolding to_bytes
  to_bytes_overflow many few =
      let some : new ≢ [] = λ e. omega (arith, ap length e, r.old_few) in
      let count : u64 (length old + m.appended_count) ≡ length old + length new =
        omega (arith, r.count_is, r.old_few) in
      let over : ltb (2 ^ 32 - 1) (length old + length new) ≡ true = ground arith in
      rw (appended_full some, existing_entries_count_lem, prefix_of_lem, count, over)

-- `manifestFromBytes` reads the footer's fields back.
pub manifest_from_bytes_lem :
    (es : List QueueEntry) (next epoch : ℕ)
    → length es < 2 ^ 32
    → next < 2 ^ 64
    → epoch < 2 ^ 64
    → manifest_from_bytes (entries_bytes es ++ footer_bytes (length es) next epoch)
      ≡ ok (record {
        bytes = entries_bytes es ++ footer_bytes (length es) next epoch;
        appended = [];
        appended_count = 0;
        next_sequence = next;
        epoch = epoch;
      })
unfolding manifest_from_bytes
manifest_from_bytes_lem es next epoch few hn he =
    let bytes = entries_bytes es ++ footer_bytes (length es) next epoch in
    let n = length (entries_bytes es) in
    let (total, _, at_next, at_epoch, at_version) =
      footer_fields (entries_bytes es) (length es) next epoch few hn he bytes n refl refl in
    let full : (length bytes == 0) ≡ false = ground arith in
    let v : length bytes - 2 ≡ n + 20 = omega arith in
    let e : length bytes - 2 - 8 ≡ n + 12 = omega arith in
    let s : length bytes - 2 - 8 - 8 ≡ n + 4 = omega arith in
    rw (full, not-ltb (length bytes) 22 (omega arith), s, e, v, at_version, at_epoch, at_next)

-- With nothing appended `toBytes` hands back the bytes that were read.
pub to_bytes_layout :
    (m : Manifest) (old new : List QueueEntry)
    → Represents m old new
    → length old + length new < 2 ^ 32
    → to_bytes m
      ≡ ok
          (entries_bytes (old ++ new) ++ footer_bytes (length (old ++ new)) m.next_sequence m.epoch)
to_bytes_layout m old [] r few =
    let same : m.next_sequence ≡ r.first = omega (arith, r.next_is, r.first_fits) in
    let none' : (length m.appended == 0) ≡ true =
      let e = ap length r.appended_are in unfold entries_bytes in ground arith in
    unfold to_bytes in rw none' (rw (append-nil, same) (ap ok r.bytes_are))
to_bytes_layout m old (q ∷ new) r few = to_bytes_lem r (λ e. cc) few

-- A manifest as it was read, with nothing appended yet.
pub Represents-read :
    (es : List QueueEntry) (next epoch : ℕ)
    → length es < 2 ^ 32
    → next < 2 ^ 64
    → epoch < 2 ^ 64
    → All IsEntry es
    → Represents
        (record {
          bytes = entries_bytes es ++ footer_bytes (length es) next epoch;
          appended = [];
          appended_count = 0;
          next_sequence = next;
          epoch = epoch;
        })
        es
        []
Represents-read es next epoch few hn he fit = record {
  first = next;
  first_fits = hn;
  bytes_are = refl;
  appended_are = unfold entries_bytes in refl;
  next_is = omega arith;
  count_is = refl;
  epoch_fits = he;
  old_few = few;
  old_fit = fit;
  new_fit = tt;
}

-- What `toBytes` writes is what the manifest stands for: `DecodeManifestEntries` reads the old
-- entries and the appended ones, in this order, and a `manifestFromBytes` of it stands for all of
-- them with nothing appended, and goes on with the same sequence number and epoch.
pub to_bytes_refines :
    {m : Manifest} {old new : List QueueEntry}
    → Represents m old new
    → length old + length new < 2 ^ 32
    → (bytes : Bytes) × (m' : Manifest) × (to_bytes m ≡ ok bytes)
      × (decode_manifest_entries bytes ≡ ok (old ++ new))
      × (manifest_from_bytes bytes ≡ ok m')
      × Represents m' (old ++ new) []
      × (m'.next_sequence ≡ m.next_sequence)
      × (m'.epoch ≡ m.epoch)
to_bytes_refines {m} {old} {new} r few =
    let fits = All-append IsEntry old new r.old_fit r.new_fit in
    let next : m.next_sequence < 2 ^ 64 = omega (arith, r.next_is) in
    let few' : length (old ++ new) < 2 ^ 32 = omega (arith, length-append old new) in
    let bytes =
      entries_bytes (old ++ new) ++ footer_bytes (length (old ++ new)) m.next_sequence m.epoch in
    (
      bytes,
      record {
        bytes = bytes;
        appended = [];
        appended_count = 0;
        next_sequence = m.next_sequence;
        epoch = m.epoch;
      },
      to_bytes_layout m old new r few,
      decode_manifest_entries_lem (old ++ new) m.next_sequence m.epoch fits few',
      manifest_from_bytes_lem (old ++ new) m.next_sequence m.epoch few' next r.epoch_fits,
      Represents-read (old ++ new) m.next_sequence m.epoch few' next r.epoch_fits fits,
      refl,
      refl,
    )
