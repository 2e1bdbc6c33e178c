-- ===== src/Manifest/Tests.antt =====
-- Concrete manifests.
use opendata_go.Base.{length, ◌+◌, sym, ◌++◌, ◌∷◌, subst, [], refl, arith, ◌≡◌, ◌≢◌, ok, panic}
use opendata_go.Bytes.{u64_of_int, le_bytes, Bytes, pos, u64}
use opendata_go.Manifest.{QueueEntry, Manifest}
use opendata_go.Manifest.Encode.{empty_manifest, append, to_bytes, manifest_from_bytes}
use opendata_go.Manifest.Decode.{decode_manifest_entries}
use opendata_go.Manifest.Layout.{
  entries_bytes, footer_bytes, ranges_bytes, range_bytes, length-body_bytes, IsEntry,
}
use opendata_go.Manifest.Append.{
  Represents, Represents-empty_manifest, append-Represents, sequenced,
}
use opendata_go.Manifest.RoundTrip.{decode_manifest_entries_lem}
use opendata_go.Manifest.ToBytes.{to_bytes_refines}
use opendata_go.Manifest.Safety.{decode_manifest_entries-ne-panic}

abbrev entry : QueueEntry
entry = record {
  sequence = 0;
  location = 97 ∷ 98 ∷ [];
  metadata = record { start_index = 3; ingestion_time_ms = pos 7; payload = 1 ∷ 2 ∷ [] } ∷ [];
}

ranges_length : length (ranges_bytes entry.metadata) ≡ 18
unfolding ranges_bytes range_bytes le_bytes u64_of_int
ranges_length = refl

entry-IsEntry : IsEntry entry
entry-IsEntry = record {
  sequence_fits = omega arith;
  location_fits = omega arith;
  count_fits = omega arith;
  body_fits = omega (arith, length-body_bytes entry, ranges_length);
  ranges = (
    record { start_fits = omega arith; time_fits = omega arith; payload_fits = omega arith },
    tt,
  );
}

empty_next : empty_manifest.next_sequence ≡ 0
unfolding empty_manifest
empty_next = refl

sequenced-entry : IsEntry (sequenced empty_manifest.next_sequence entry)
sequenced-entry = subst (λ n. IsEntry (sequenced n entry)) (sym empty_next) entry-IsEntry

append-Represents_example :
    (m' : Manifest) × (append empty_manifest entry ≡ ok m')
    × Represents m' [] ([] ++ sequenced empty_manifest.next_sequence entry ∷ [])
    × (m'.next_sequence ≡ u64 (empty_manifest.next_sequence + 1))
    × (m'.bytes ≡ empty_manifest.bytes)
    × (m'.epoch ≡ empty_manifest.epoch)
append-Represents_example =
    append-Represents empty_manifest entry Represents-empty_manifest sequenced-entry

to_bytes_refines_example :
    (bytes : Bytes) × (m' : Manifest) × (to_bytes append-Represents_example.0 ≡ ok bytes)
    × (decode_manifest_entries bytes
        ≡ ok ([] ++ ([] ++ sequenced empty_manifest.next_sequence entry ∷ [])))
    × (manifest_from_bytes bytes ≡ ok m')
    × Represents m' ([] ++ ([] ++ sequenced empty_manifest.next_sequence entry ∷ [])) []
    × (m'.next_sequence ≡ append-Represents_example.0.next_sequence)
    × (m'.epoch ≡ append-Represents_example.0.epoch)
to_bytes_refines_example = to_bytes_refines append-Represents_example.2 (omega arith)

decode_manifest_entries_example :
    decode_manifest_entries (entries_bytes (entry ∷ entry ∷ []) ++ footer_bytes 2 2 9)
    ≡ ok (entry ∷ entry ∷ [])
decode_manifest_entries_example =
    decode_manifest_entries_lem (entry ∷ entry ∷ []) 2 9 (entry-IsEntry, (entry-IsEntry, tt))
      (omega arith)

-- A footer that claims more entries than there are bytes.
decode_manifest_entries-ne-panic_example :
    decode_manifest_entries (255 ∷ 255 ∷ 255 ∷ 255 ∷ footer_bytes 1 0 0) ≢ panic
decode_manifest_entries-ne-panic_example =
    decode_manifest_entries-ne-panic (255 ∷ 255 ∷ 255 ∷ 255 ∷ footer_bytes 1 0 0)
