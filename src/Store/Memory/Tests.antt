-- ===== src/Store/Memory/Tests.antt =====
-- Concrete objects.
use opendata_go.Base.{
  precondition_failed, err, ◌⊎◌, refl, if◌then◌else◌, [], some, ◌∷◌, ◌≡◌, ◌≢◌, ok,
}
use opendata_go.Bytes.{Bytes}
use opendata_go.Bytes.Decimal.{same}
use opendata_go.Store.{GetResult, version_of}
use opendata_go.Store.Memory.{InMemory, new_in_memory, put, put_if_match, version_etag}
use opendata_go.Store.Memory.Laws.{view, put_if_match_lem}
use opendata_go.Store.Memory.Stale.{replace, stale_version_accepted}

abbrev path : Bytes
path = 109 ∷ []

abbrev one_object : InMemory
one_object = (put path (1 ∷ []) new_in_memory).0

one_object_lem : one_object path ≡ some (record { bytes = 1 ∷ []; version = 1 })
unfolding put same
one_object_lem = refl

-- A write under the version that `Get` shows.
put_if_match_example :
    ((version_of (view one_object path) ≡ some (version_etag 1))
      × ((put_if_match path (2 ∷ []) (some (version_etag 1)) one_object).1 ≡ ok tt)
      × (r : GetResult) × (view
            (put_if_match path (2 ∷ []) (some (version_etag 1)) one_object).0
            path
          ≡ some r)
      × (r.bytes ≡ 2 ∷ [])
      × (some r.version ≢ some (version_etag 1))
      × ((q : Bytes)
          → view (put_if_match path (2 ∷ []) (some (version_etag 1)) one_object).0 q
            ≡ (if same path q then some r else view one_object q)))
    ⊎ ((version_of (view one_object path) ≢ some (version_etag 1))
        × (put_if_match path (2 ∷ []) (some (version_etag 1)) one_object
            ≡ (one_object, err precondition_failed)))
put_if_match_example = put_if_match_lem path (2 ∷ []) (some (version_etag 1)) one_object

stale_version_accepted_example :
    (r : GetResult) × (view (replace path (2 ∷ []) one_object) path ≡ some r)
    × (r.bytes ≡ 2 ∷ [])
    × (version_of (view one_object path) ≡ some r.version)
    × ((put_if_match path
          (3 ∷ [])
          (version_of (view one_object path))
          (replace path (2 ∷ []) one_object)).1
        ≡ ok tt)
stale_version_accepted_example =
    stale_version_accepted path (1 ∷ []) (2 ∷ []) (3 ∷ []) one_object one_object_lem
