-- ===== src/Enqueuer/Log.antt =====
-- buffer/manifest.go: the list of entries that a manifest object holds, and the entries that a batch of items becomes.
use opendata_go.Base.{
  ◌∙◌, append_assoc, append-nil, sym, none, subst, refl, ◌++◌, suc, ok, some, arith, ap, All, [],
  ◌+◌, ◌≡◌, ◌^◌, ◌<◌, length, Option, ◌∷◌, ℕ, List,
}
use opendata_go.Bytes.{u64}
use opendata_go.Manifest.{QueueEntry, Manifest}
use opendata_go.Manifest.Layout.{IsEntry, entries_bytes, footer_bytes, length-body_bytes}
use opendata_go.Manifest.Append.{Represents, append-Represents, sequenced}
use opendata_go.Store.{GetResult}
use opendata_go.Enqueuer.{EnqueueItem, entry_of, append_all}

-- The items as entries, under the sequence numbers from `next` on.
unfoldable pub numbered : ℕ → List EnqueueItem → List QueueEntry
numbered next [] = []
numbered next (item ∷ items) = sequenced next (entry_of item) ∷ numbered (u64 (next + 1)) items

-- What the manifest's path holds: the entries `es`, the next one of which gets number `next`. A
-- missing object is an empty log.
abbrev pub LogAt : Option GetResult → List QueueEntry → ℕ → Type 0
LogAt none es next = (es ≡ []) × (next ≡ 0)
LogAt (some r) es next =
    (epoch : ℕ) × (epoch < 2 ^ 64)
    × (next < 2 ^ 64)
    × (length es < 2 ^ 32)
    × All IsEntry es
    × (r.bytes ≡ entries_bytes es ++ footer_bytes (length es) next epoch)

-- An item that the format can hold.
abbrev pub IsItem : EnqueueItem → Type 0
IsItem item = IsEntry (entry_of item)

pub length-numbered :
    (items : List EnqueueItem) (next : ℕ) → length (numbered next items) ≡ length items
unfolding numbered
length-numbered [] next = refl
length-numbered (item ∷ items) next = ap suc (length-numbered items (u64 (next + 1)))

sequenced-IsEntry : (n : ℕ) (q : QueueEntry) → n < 2 ^ 64 → IsEntry q → IsEntry (sequenced n q)
sequenced-IsEntry n q h e = record {
  sequence_fits = h;
  location_fits = e.location_fits;
  count_fits = e.count_fits;
  body_fits = omega (arith, length-body_bytes q, length-body_bytes (sequenced n q), e.body_fits);
  ranges = e.ranges;
}

-- Appending a batch of items to a manifest adds their entries, numbered on.
pub append_all-Represents :
    (items : List EnqueueItem) (m : Manifest) {old new : List QueueEntry}
    → Represents m old new
    → m.next_sequence < 2 ^ 64
    → All IsItem items
    → (m' : Manifest) × (append_all m items ≡ ok m')
      × Represents m' old (new ++ numbered m.next_sequence items)
      × (m'.next_sequence ≡ u64 (m.next_sequence + length items))
unfolding append_all numbered
append_all-Represents [] m r h fit =
    (m, refl, subst (Represents m _) (sym (append-nil _)) r, omega arith)
append_all-Represents (item ∷ items) m {old} {new} r h fit =
    let q = sequenced m.next_sequence (entry_of item) in
    let (m1, done, r1, next, _, _) =
      append-Represents m (entry_of item) r
        (sequenced-IsEntry m.next_sequence (entry_of item) h fit.0) in
    let (m2, done2, r2, next2) = append_all-Represents items m1 r1 (omega arith) fit.1 in
    (
      m2,
      rw done done2,
      subst (Represents m2 old)
          (append_assoc new (q ∷ []) (numbered m1.next_sequence items)
            ∙ ap (λ t. new ++ (q ∷ numbered t items)) next)
          r2,
      omega arith,
    )
