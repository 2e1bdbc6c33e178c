-- ===== src/Manifest/Append.antt =====
-- What the manifest stands for: a list of entries, which `append` and `toBytes` extend.
use opendata_go.Base.{
  refl, ◌<◌, All-append, length-append, false, ◌-◌, [], ◌^◌, append_assoc, ltb, ◌∙◌, arith, ap, ◌∷◌,
  append-nil, length, ◌+◌, sym, ok, ◌++◌, ◌≡◌, All, ℕ, List,
}
use opendata_go.Bytes.{Bytes, u16, u32, u64, le_bytes}
use opendata_go.Manifest.{QueueMetadata, QueueEntry, Manifest}
use opendata_go.Manifest.Layout.{
  range_bytes, ranges_bytes, body_bytes, entry_bytes, entries_bytes, footer_bytes, IsRange, IsEntry,
  length-range_bytes, length-body_bytes, entries_bytes-append,
}
use opendata_go.Manifest.Encode.{
  append_footer, empty_manifest, metadata_size, append_metadata, encode_queue_entry, append,
}

append_metadata-ranges_bytes :
    (ms : List QueueMetadata) (buf : Bytes)
    → All IsRange ms
    → append_metadata buf ms ≡ buf ++ ranges_bytes ms
unfolding append_metadata ranges_bytes range_bytes
append_metadata-ranges_bytes [] buf h = sym (append-nil buf)
append_metadata-ranges_bytes (m ∷ ms) buf h =
    let fits : u32 (length m.payload) ≡ length m.payload = omega (arith, h.0.payload_fits) in
    rw fits (append_metadata-ranges_bytes ms _ h.1 ∙ simp append_assoc)

metadata_size-ranges_bytes :
    (ms : List QueueMetadata) (size : ℕ)
    → All IsRange ms
    → metadata_size size ms ≡ ok (size + length (ranges_bytes ms))
unfolding metadata_size ranges_bytes
metadata_size-ranges_bytes [] size h = ap ok (omega arith)
metadata_size-ranges_bytes (m ∷ ms) size h =
    let fits : ltb (2 ^ 32 - 1) (length m.payload) ≡ false = ground (arith, h.0.payload_fits) in
    rw fits (
      metadata_size-ranges_bytes ms _ h.1
      ∙ ap ok
          (omega (arith, length-range_bytes m, length-append (range_bytes m) (ranges_bytes ms))))

-- `encodeQueueEntry` accepts every entry that fits the format, and writes its layout.
pub encode_queue_entry-entry_bytes :
    (q : QueueEntry) → IsEntry q → encode_queue_entry q ≡ ok (entry_bytes q)
unfolding encode_queue_entry
encode_queue_entry-entry_bytes q h =
    let n = length (body_bytes q) in
    let size = length-body_bytes q in
    let short : ltb (2 ^ 16 - 1) (length q.location) ≡ false = ground (arith, h.location_fits) in
    let body : u32 (8 + 2 + length q.location + (4 + length (ranges_bytes q.metadata))) ≡ n =
      omega (arith, h.body_fits) in
    let loc : u16 (length q.location) ≡ length q.location = omega (arith, h.location_fits) in
    let count : u32 (length q.metadata) ≡ length q.metadata = omega (arith, h.count_fits) in
    rw (short, metadata_size-ranges_bytes q.metadata 4 h.ranges, body, loc, count)
      (ap ok (
        append_metadata-ranges_bytes q.metadata _ h.ranges
        ∙ unfold entry_bytes body_bytes in simp append_assoc))

-- The manifest was read with the entries `old`, and `new` were appended since. `first` is the
-- sequence number that it was read with.
pub record Represents (m : Manifest) (old new : List QueueEntry) : Type 0 where
  pub first : ℕ
  pub first_fits : first < 2 ^ 64
  pub bytes_are : m.bytes ≡ entries_bytes old ++ footer_bytes (length old) first m.epoch
  pub appended_are : m.appended ≡ entries_bytes new
  pub next_is : m.next_sequence ≡ u64 (first + length new)
  pub count_is : m.appended_count ≡ length new
  pub epoch_fits : m.epoch < 2 ^ 64
  pub old_few : length old < 2 ^ 32
  pub old_fit : All IsEntry old
  pub new_fit : All IsEntry new

pub Represents-empty_manifest : Represents empty_manifest [] []
unfolding empty_manifest append_footer entries_bytes footer_bytes le_bytes
Represents-empty_manifest = record {
  first = 0;
  first_fits = omega arith;
  bytes_are = refl;
  appended_are = refl;
  next_is = refl;
  count_is = refl;
  epoch_fits = omega arith;
  old_few = omega arith;
  old_fit = tt;
  new_fit = tt;
}

-- An entry under the sequence number that the manifest gives it.
abbrev pub sequenced : ℕ → QueueEntry → QueueEntry
sequenced n q = record q { sequence = n }

entries_bytes-one : (q : QueueEntry) → entries_bytes (q ∷ []) ≡ entry_bytes q
unfolding entries_bytes
entries_bytes-one q = append-nil (entry_bytes q)

-- `append` on an entry that fits succeeds: the entry is added behind the others under the next
-- sequence number, which goes up by one, and the bytes that were read stay.
pub append-Represents :
    (m : Manifest) (q : QueueEntry) {old new : List QueueEntry}
    → Represents m old new
    → IsEntry (sequenced m.next_sequence q)
    → (m' : Manifest) × (append m q ≡ ok m')
      × Represents m' old (new ++ sequenced m.next_sequence q ∷ [])
      × (m'.next_sequence ≡ u64 (m.next_sequence + 1))
      × (m'.bytes ≡ m.bytes)
      × (m'.epoch ≡ m.epoch)
unfolding append
append-Represents m q {old} {new} r h =
    let q' = sequenced m.next_sequence q in
    (
      record m {
        appended = m.appended ++ entry_bytes q';
        next_sequence = u64 (m.next_sequence + 1);
        appended_count = m.appended_count + 1;
      },
      rw (encode_queue_entry-entry_bytes q' h),
      record {
        first = r.first;
        first_fits = r.first_fits;
        bytes_are = r.bytes_are;
        appended_are = rw (r.appended_are) (
            ap (λ t. entries_bytes new ++ t) (sym (entries_bytes-one q'))
            ∙ sym (entries_bytes-append new (q' ∷ [])));
        next_is = omega (arith, r.next_is, length-append new (q' ∷ []));
        count_is = omega (arith, r.count_is, length-append new (q' ∷ []));
        epoch_fits = r.epoch_fits;
        old_few = r.old_few;
        old_fit = r.old_fit;
        new_fit = All-append IsEntry new (q' ∷ []) r.new_fit (h, tt);
      },
      refl,
      refl,
      refl,
    )
