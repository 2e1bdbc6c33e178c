-- ===== src/Store.antt =====
-- objstore/objstore.go: the interface of an object store, and what the enqueuer relies on.
pub mod Memory
pub mod S3
use opendata_go.Base.{
  ◌≡◌, ◌≢◌, Option, none, some, Outcome, ok, err, not_found, precondition_failed,
}
use opendata_go.Bytes.{Bytes}

-- An opaque token.
pub record Version : Type 0 where
  pub etag : Bytes

pub record GetResult : Type 0 where
  pub bytes : Bytes
  pub version : Version

-- A call may change the store's state `S` also where it fails. A `none` version asks `put_if_match`
-- to create the object.
pub record ObjectStore (S : Type 0) : Type 0 where
  pub get : Bytes → S → S × Outcome GetResult
  pub put : Bytes → Bytes → S → S × Outcome (Unit {0})
  pub put_if_match : Bytes → Bytes → Option Version → S → S × Outcome (Unit {0})
  pub delete : Bytes → S → S × Outcome (Unit {0})

abbrev pub version_of : Option GetResult → Option Version
version_of none = none
version_of (some r) = some r.version

-- The optimistic-concurrency contract of a store, as its interface documents it. `view s p` is what
-- the path holds, and `Others s t` says that other clients may take the store from `s` to `t`.
-- Errors other than the two that the interface names are not restricted.
pub record CasLaws {S : Type 0} (o : ObjectStore S) : Type 1 where
  pub view : S → Bytes → Option GetResult
  pub Others : S → S → Type 0
  pub get_found :
      (p : Bytes) (s t : S) (r : GetResult)
      → o.get p s ≡ (t, ok r)
      → (view s p ≡ some r) × ((q : Bytes) → view t q ≡ view s q)
  pub get_missing :
      (p : Bytes) (s t : S)
      → o.get p s ≡ (t, err not_found)
      → (view s p ≡ none) × ((q : Bytes) → view t q ≡ view s q)
  pub cas_ok :
      (p b : Bytes) (v : Option Version) (s t : S)
      → o.put_if_match p b v s ≡ (t, ok tt)
      → (version_of (view s p) ≡ v) × (r : GetResult) × (view t p ≡ some r) × (r.bytes ≡ b)
  pub cas_conflict :
      (p b : Bytes) (v : Option Version) (s t : S)
      → o.put_if_match p b v s ≡ (t, err precondition_failed)
      → (version_of (view s p) ≢ v) × ((q : Bytes) → view t q ≡ view s q)
  pub pinned :
      (p : Bytes) (s t : S) (r r' : GetResult)
      → Others s t
      → view s p ≡ some r
      → view t p ≡ some r'
      → r.version ≡ r'.version
      → r.bytes ≡ r'.bytes
