-- ===== src/Manifest/Safety.antt =====
-- `DecodeManifestEntries` and `manifestFromBytes` on any input, well formed or not.
use opendata_go.Base.{
  zero, fail_if-eq-ok, ◌∷◌, ok, ◌++◌, [], ◌-◌, fail_if-ne-panic, arith, suc, ◌≡◌, >>=-ne-panic,
  serialization, ok-ne-panic, length, panic, ltb, ◌≢◌, ◌+◌, ◌≤◌, fail_if, ℕ, List,
}
use opendata_go.Bytes.{Bytes, slice, read_le}
use opendata_go.Bytes.Laws.{slice-ne-panic, read_le-ne-panic}
use opendata_go.Manifest.{QueueEntry, QueueMetadata}
use opendata_go.Manifest.Decode.{
  decode_range, decode_metadata, decode_queue_entry, decode_entries, decode_manifest_entries,
}

-- A bounds check that passed.
checked-le : (a b : ℕ) {u : Unit {0}} → fail_if (ltb a b) serialization ≡ ok u → b ≤ a
checked-le a b h = let e = fail_if-eq-ok (ltb a b) serialization h in ground arith

check-ne-panic : (a b : ℕ) → fail_if (ltb a b) serialization ≢ panic
check-ne-panic a b = fail_if-ne-panic (ltb a b) serialization

decode_range-ne-panic :
    (bytes : Bytes) (entry_end offset : ℕ)
    → entry_end ≤ length bytes
    → decode_range bytes entry_end offset ≢ panic
unfolding decode_range
decode_range-ne-panic bytes end offset inside =
    >>=-ne-panic (fail_if (ltb end (offset + 4)) serialization) _ (check-ne-panic _ _) λ _ h1.
      let b1 = checked-le end (offset + 4) h1 in
      >>=-ne-panic (read_le 4 bytes offset) _ (read_le-ne-panic 4 bytes offset (omega arith))
        λ start _.
          >>=-ne-panic (fail_if (ltb end (offset + 4 + 8)) serialization) _ (check-ne-panic _ _)
            λ _ h2.
              let b2 = checked-le end (offset + 4 + 8) h2 in
              >>=-ne-panic (read_le 8 bytes (offset + 4)) _
                (read_le-ne-panic 8 bytes (offset + 4) (omega arith))
                λ time _.
                  >>=-ne-panic (fail_if (ltb end (offset + 4 + 8 + 4)) serialization) _
                    (check-ne-panic _ _)
                    λ _ h3.
                      let b3 = checked-le end (offset + 4 + 8 + 4) h3 in
                      >>=-ne-panic (read_le 4 bytes (offset + 4 + 8)) _
                        (read_le-ne-panic 4 bytes (offset + 4 + 8) (omega arith))
                        λ len _.
                          >>=-ne-panic (fail_if (ltb end (offset + 4 + 8 + 4 + len)) serialization)
                            _ (check-ne-panic _ _)
                            λ _ h4.
                              let b4 = checked-le end (offset + 4 + 8 + 4 + len) h4 in
                              >>=-ne-panic
                                (slice bytes (offset + 4 + 8 + 4) (offset + 4 + 8 + 4 + len)) _
                                (slice-ne-panic bytes (offset + 4 + 8 + 4)
                                  (offset + 4 + 8 + 4 + len) (omega arith) (omega arith))
                                λ p _. ok-ne-panic _

decode_metadata-ne-panic :
    (n : ℕ) (bytes : Bytes) (entry_end offset : ℕ) (acc : List QueueMetadata)
    → entry_end ≤ length bytes
    → decode_metadata n bytes entry_end offset acc ≢ panic
unfolding decode_metadata
decode_metadata-ne-panic zero bytes end offset acc inside = ok-ne-panic acc
decode_metadata-ne-panic (suc n) bytes end offset acc inside =
    >>=-ne-panic (decode_range bytes end offset) _ (decode_range-ne-panic bytes end offset inside)
      λ r _. decode_metadata-ne-panic n bytes end r.1 (acc ++ (r.0 ∷ [])) inside

-- The sequence and the location's length are read before the body's length is looked at again: a
-- body that is too short for them makes the read run into the footer, and never past it.
decode_queue_entry-ne-panic :
    (bytes : Bytes) (offset end : ℕ)
    → end + 22 ≤ length bytes
    → decode_queue_entry bytes offset end ≢ panic
unfolding decode_queue_entry
decode_queue_entry-ne-panic bytes offset end room =
    >>=-ne-panic (fail_if (ltb end (offset + 4)) serialization) _ (check-ne-panic _ _) λ _ h1.
      let b1 = checked-le end (offset + 4) h1 in
      >>=-ne-panic (read_le 4 bytes offset) _ (read_le-ne-panic 4 bytes offset (omega arith)) λ n _.
        >>=-ne-panic (fail_if (ltb end (offset + 4 + n)) serialization) _ (check-ne-panic _ _)
          λ _ h2.
            let b2 = checked-le end (offset + 4 + n) h2 in
            >>=-ne-panic (read_le 8 bytes (offset + 4)) _
              (read_le-ne-panic 8 bytes (offset + 4) (omega arith))
              λ seq _.
                >>=-ne-panic (read_le 2 bytes (offset + 4 + 8)) _
                  (read_le-ne-panic 2 bytes (offset + 4 + 8) (omega arith))
                  λ l _.
                    >>=-ne-panic
                      (fail_if (ltb (offset + 4 + n) (offset + 4 + 8 + 2 + l + 4)) serialization) _
                      (check-ne-panic _ _)
                      λ _ h3.
                        let b3 = checked-le (offset + 4 + n) (offset + 4 + 8 + 2 + l + 4) h3 in
                        >>=-ne-panic (slice bytes (offset + 4 + 8 + 2) (offset + 4 + 8 + 2 + l)) _
                          (slice-ne-panic bytes (offset + 4 + 8 + 2) (offset + 4 + 8 + 2 + l)
                            (omega arith) (omega arith))
                          λ loc _.
                            >>=-ne-panic (read_le 4 bytes (offset + 4 + 8 + 2 + l)) _
                              (read_le-ne-panic 4 bytes (offset + 4 + 8 + 2 + l) (omega arith))
                              λ count _.
                                >>=-ne-panic
                                  (decode_metadata count bytes (offset + 4 + n)
                                    (offset + 4 + 8 + 2 + l + 4) [])
                                  _
                                  (decode_metadata-ne-panic count bytes (offset + 4 + n)
                                    (offset + 4 + 8 + 2 + l + 4) [] (omega arith))
                                  λ md _. ok-ne-panic _

decode_entries-ne-panic :
    (n : ℕ) (bytes : Bytes) (offset end : ℕ) (acc : List QueueEntry)
    → end + 22 ≤ length bytes
    → decode_entries n bytes offset end acc ≢ panic
unfolding decode_entries
decode_entries-ne-panic zero bytes offset end acc room = ok-ne-panic acc
decode_entries-ne-panic (suc n) bytes offset end acc room =
    >>=-ne-panic (decode_queue_entry bytes offset end) _
      (decode_queue_entry-ne-panic bytes offset end room)
      λ r _. decode_entries-ne-panic n bytes r.1 end (acc ++ (r.0 ∷ [])) room

-- `DecodeManifestEntries` returns entries or an error on every input: no slice expression is out
-- of range, whatever lengths and counts the bytes claim.
pub decode_manifest_entries-ne-panic : (bytes : Bytes) → decode_manifest_entries bytes ≢ panic
unfolding decode_manifest_entries
decode_manifest_entries-ne-panic bytes =
    >>=-ne-panic (fail_if (ltb (length bytes) 22) serialization) _ (check-ne-panic _ _) λ _ h.
      let b = checked-le (length bytes) 22 h in
      >>=-ne-panic (read_le 4 bytes (length bytes - 22)) _
        (read_le-ne-panic 4 bytes (length bytes - 22) (omega arith))
        λ count _. decode_entries-ne-panic count bytes 0 (length bytes - 22) [] (omega arith)
