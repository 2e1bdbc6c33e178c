-- ===== src/Enqueuer/Read.antt =====
-- buffer/manifest.go: what a round of `enqueueBatch` reads with `readManifest`, and what it prepares to write.
use opendata_go.Base.{
  inr, inl, ltb, Bool-cases, >>=-eq-ok, ◌∙◌, sym, ok-injective, not_found, ◌≢◌, subst, none, Error,
  panic, err, ap, All-append, length-append, arith, ◌+◌, refl, length, All, ◌++◌, ◌^◌, ◌>>=◌, ◌<◌,
  ◌≡◌, [], Outcome, ok, Option, some, ℕ, List,
}
use mathlib.Core.Option.{some-injective}
use opendata_go.Bytes.{Bytes, u64}
use opendata_go.Manifest.{QueueEntry, Manifest}
use opendata_go.Manifest.Layout.{IsEntry, entries_bytes, footer_bytes}
use opendata_go.Manifest.Encode.{empty_manifest, to_bytes}
use opendata_go.Manifest.Append.{Represents, Represents-empty_manifest}
use opendata_go.Manifest.ToBytes.{
  to_bytes_overflow, to_bytes_layout, manifest_from_bytes_lem, Represents-read,
}
use opendata_go.Store.{Version, GetResult, ObjectStore, CasLaws, version_of}
use opendata_go.Enqueuer.{EnqueueItem, append_all, manifest_of, read_manifest, prepare}
use opendata_go.Enqueuer.Log.{numbered, LogAt, IsItem, length-numbered, append_all-Represents}

pub version_of-none : (x : Option GetResult) → version_of x ≡ none → x ≡ none
version_of-none none h = refl
version_of-none (some r) h = cc

pub version_of-some :
    (x : Option GetResult) (v : Version)
    → version_of x ≡ some v
    → (r : GetResult) × (x ≡ some r) × (r.version ≡ v)
version_of-some none v h = cc
version_of-some (some r) v h = (r, refl, some-injective _ _ h)

-- What `readManifest` makes of a valid manifest object.
pub manifest_of_found :
    (r : GetResult) (es : List QueueEntry) (next : ℕ)
    → LogAt (some r) es next
    → (m : Manifest) × (manifest_of (ok r) ≡ ok (m, some r.version))
      × Represents m es []
      × (m.next_sequence ≡ next)
unfolding manifest_of
manifest_of_found r es next (epoch, he, hn, few, fit, bytes) = (
  record {
    bytes = entries_bytes es ++ footer_bytes (length es) next epoch;
    appended = [];
    appended_count = 0;
    next_sequence = next;
    epoch = epoch;
  },
  rw (bytes, manifest_from_bytes_lem es next epoch few hn he),
  Represents-read es next epoch few hn he fit,
  refl,
)

manifest_of-err :
    (x : Error) {y : Manifest × Option Version} → manifest_of (err x) ≡ ok y → x ≡ not_found
unfolding manifest_of
manifest_of-err not_found h = refl
manifest_of-err x h = cc

manifest_of-panic : {y : Manifest × Option Version} → manifest_of panic ≢ ok y
unfolding manifest_of
manifest_of-panic h = cc

pub manifest_of-missing : ok (empty_manifest, none) ≡ manifest_of (err not_found)
unfolding manifest_of
manifest_of-missing = refl

empty_manifest-next_sequence : empty_manifest.next_sequence ≡ 0
unfolding empty_manifest
empty_manifest-next_sequence = refl

-- The bytes that a round prepares for a batch of items.
unfoldable pub write_of :
    (m : Manifest) (version : Option Version) (items : List EnqueueItem)
    → Outcome (Bytes × Option Version)
write_of m version items = do m' ← append_all m items; bytes ← to_bytes m'; ok (bytes, version)

pub write_of_lem :
    (m : Manifest) (version : Option Version) (items : List EnqueueItem) (es : List QueueEntry)
    → Represents m es []
    → m.next_sequence < 2 ^ 64
    → All IsItem items
    → length es + length items < 2 ^ 32
    → (bytes : Bytes) × (write_of m version items ≡ ok (bytes, version))
      × ((v : Version)
          → LogAt
              (some (record { bytes = bytes; version = v }))
              (es ++ numbered m.next_sequence items)
              (u64 (m.next_sequence + length items)))
unfolding write_of
write_of_lem m version items es r h fit few =
    let (m', done, r', next') = append_all-Represents items m r h fit in
    let size = length-numbered items m.next_sequence in
    let total : length es + length (numbered m.next_sequence items) < 2 ^ 32 = omega arith in
    let written = to_bytes_layout m' es (numbered m.next_sequence items) r' total in
    let es' = es ++ numbered m.next_sequence items in
    (
      entries_bytes es' ++ footer_bytes (length es') m'.next_sequence m'.epoch,
      rw (done, written),
      λ v. (
        m'.epoch,
        r'.epoch_fits,
        omega arith,
        omega (arith, length-append es (numbered m.next_sequence items)),
        All-append IsEntry es (numbered m.next_sequence items) r'.old_fit r'.new_fit,
        ap (λ n. entries_bytes es' ++ footer_bytes (length es') n m'.epoch) next',
      ),
    )

-- A batch that was prepared left room for the count.
write_of_room :
    (m : Manifest) (v : Option Version) (items : List EnqueueItem) (es : List QueueEntry)
    {y : Bytes × Option Version}
    → Represents m es []
    → m.next_sequence < 2 ^ 64
    → All IsItem items
    → length items < 2 ^ 63
    → write_of m v items ≡ ok y
    → length es + length items < 2 ^ 32
unfolding write_of
write_of_room m v items es r h fit few e =
    elim (Bool-cases (ltb (length es + length items) (2 ^ 32))) [
      | inl room ↦ ground arith
      | inr full ↦
          let (m', done, r', _) = append_all-Represents items m r h fit in
          let size = length-numbered items m.next_sequence in
          let over = to_bytes_overflow r' (ground arith) (omega arith) in
          let bad = rw (done, over) at e in absurd (cc bad)
    ]

write_of_found :
    (m : Manifest) (v : Option Version) (items : List EnqueueItem) (es : List QueueEntry)
    (bytes : Bytes) (version : Option Version)
    → Represents m es []
    → All IsItem items
    → length items < 2 ^ 63
    → write_of m v items ≡ ok (bytes, version)
    → (v ≡ version)
      × ((w : Version)
          → LogAt
              (some (record { bytes = bytes; version = w }))
              (es ++ numbered m.next_sequence items)
              (u64 (m.next_sequence + length items)))
write_of_found m v items es bytes version r fit few e =
    let next : m.next_sequence < 2 ^ 64 = omega (arith, r.next_is) in
    let (bytes', wrote, longer) =
      write_of_lem m v items es r next fit (write_of_room m v items es r next fit few e) in
    let same = ok-injective (sym wrote ∙ e) in
    let same_bytes : bytes' ≡ bytes = ap (λ x. x.0) same in
    (
      ap (λ x. x.1) same,
      λ w.
          subst
            (λ b.
              LogAt (some (record { bytes = b; version = w }))
                (es ++ numbered m.next_sequence items) (u64 (m.next_sequence + length items)))
            same_bytes (longer w),
    )

-- The manifest object at `path` is valid: it holds some list of entries.
abbrev pub Valid : Option GetResult → Type 0
Valid x = (es : List QueueEntry) × (next : ℕ) × LogAt x es next

module _ {S : Type 0} {o : ObjectStore S} (laws : CasLaws o) (path : Bytes)
    (between : ℕ → S → S) where
  -- What a round learns from its `Get`: the manifest, under the version of the object.
  pub record HasRead (s s' : S) (m : Manifest) (version : Option Version) (es : List QueueEntry)
      (next : ℕ) : Type 0 where
    as_seen : laws.view s' path ≡ laws.view s path
    token : version_of (laws.view s path) ≡ version
    pub stands_for : Represents m es []
    goes_on : m.next_sequence ≡ next

  pub read_manifest_lem :
      (s s' : S) (m : Manifest) (version : Option Version) (es : List QueueEntry) (next : ℕ)
      → read_manifest o path between s ≡ (s', ok (m, version))
      → LogAt (laws.view s path) es next
      → HasRead s s' m version es next
  unfolding read_manifest
  read_manifest_lem s s' m version es next e log = go (o.get path s).1 refl
    where
      went : (o.get path s).0 ≡ s'
      went = ap (λ x. x.0) e

      read : manifest_of (o.get path s).1 ≡ ok (m, version)
      read = ap (λ x. x.1) e

      go : (x : Outcome GetResult) → (o.get path s).1 ≡ x → HasRead s s' m version es next
      go (ok r) at_x =
          let (found, same) = laws.get_found path s s' r (λ i. (went i, at_x i)) in
          let (m0, read0, stands, next0) =
            manifest_of_found r es next (subst (λ x. LogAt x es next) found log) in
          let same_read = ok-injective (sym read0 ∙ ap manifest_of (sym at_x) ∙ read) in
          let same_m : m0 ≡ m = ap (λ x. x.0) same_read in
          record {
            as_seen = same path;
            token = ap version_of found ∙ ap (λ x. x.1) same_read;
            stands_for = subst (λ x. Represents x es []) same_m stands;
            goes_on = subst (λ (x : Manifest). x.next_sequence ≡ next) same_m next0;
          }
      go (err x) at_x =
          let missing = manifest_of-err x (ap manifest_of (sym at_x) ∙ read) in
          let at_x' : (o.get path s).1 ≡ err not_found = at_x ∙ ap err missing in
          let (absent, same) = laws.get_missing path s s' (λ i. (went i, at_x' i)) in
          let (no_entries, zero') = subst (λ x. LogAt x es next) absent log in
          let same_read = ok-injective (manifest_of-missing ∙ ap manifest_of (sym at_x') ∙ read) in
          let same_m : empty_manifest ≡ m = ap (λ x. x.0) same_read in
          record {
            as_seen = same path;
            token = ap version_of absent ∙ ap (λ x. x.1) same_read;
            stands_for =
                subst (λ x. Represents m x []) (sym no_entries)
                  (subst (λ x. Represents x [] []) same_m Represents-empty_manifest);
            goes_on =
                ap (λ x. x.next_sequence) (sym same_m) ∙ empty_manifest-next_sequence ∙ sym zero';
          }
      go panic at_x = absurd (manifest_of-panic (ap manifest_of (sym at_x) ∙ read))

  -- A write that a round prepared, in terms of the log that it read.
  pub record HasPrepared (s s' : S) (bytes : Bytes) (version : Option Version)
      (items : List EnqueueItem) (es : List QueueEntry) (next : ℕ) : Type 0 where
    pub unchanged : laws.view s' path ≡ laws.view s path
    pub token : version_of (laws.view s path) ≡ version
    pub extends :
        (v : Version)
        → LogAt
            (some (record { bytes = bytes; version = v }))
            (es ++ numbered next items)
            (u64 (next + length items))

  pub prepare_lem :
      (items : List EnqueueItem) (s : S) (bytes : Bytes) (version : Option Version)
      (es : List QueueEntry) (next : ℕ)
      → (prepare o path between items s).1 ≡ ok (bytes, version)
      → LogAt (laws.view s path) es next
      → All IsItem items
      → length items < 2 ^ 63
      → HasPrepared s (prepare o path between items s).0 bytes version items es next
  unfolding prepare write_of append_all
  prepare_lem items s bytes version es next e log fit few =
      let ((m, v), read, wrote) = >>=-eq-ok (read_manifest o path between s).1 _ e in
      let found =
        read_manifest_lem s (read_manifest o path between s).0 m v es next
          (λ i. ((read_manifest o path between s).0, read i)) log in
      let (same, longer) =
        write_of_found m v items es bytes version found.stands_for fit few wrote in
      record {
        unchanged = found.as_seen;
        token = found.token ∙ same;
        extends = λ w.
            subst
              (λ n.
                LogAt (some (record { bytes = bytes; version = w })) (es ++ numbered n items)
                  (u64 (n + length items)))
              found.goes_on (longer w);
      }
