-- ===== src/Store/Memory.antt =====
-- objstore/memory.go: `InMemory`. Each method holds the mutex for its whole body, so a call is one
-- step. Bytes are copied in and out there; values need no copy. `version` is an int64 in the
-- source and a plain number here: it would wrap after 2^63 - 1 writes of one object.
pub mod Laws
pub mod Answers
pub mod Stale
mod Tests
use opendata_go.Base.{
  false, true, not_found, ◌+◌, precondition_failed, ok, err, some, Bool, if◌then◌else◌, Option,
  Outcome, none, ℕ,
}
use opendata_go.Bytes.{Bytes}
use opendata_go.Bytes.Decimal.{decimal, same}
use opendata_go.Store.{Version, GetResult, ObjectStore}

pub record MemObject : Type 0 where
  pub bytes : Bytes
  pub version : ℕ

-- The map `objects`.
abbrev pub InMemory : Type 0
InMemory = Bytes → Option MemObject

abbrev pub new_in_memory : InMemory
new_in_memory path = none

abbrev pub update : InMemory → Bytes → Option MemObject → InMemory
update m path v q = if same path q then v else m q

unfoldable pub version_etag : ℕ → Version
unfolding decimal
version_etag n = record { etag = decimal n }

unfoldable pub get : Bytes → InMemory → InMemory × Outcome GetResult
get path m = elim (m path) [
  | none ↦ (m, err not_found)
  | some obj ↦ (m, ok (record { bytes = obj.bytes; version = version_etag obj.version }))
]

-- The object behind a write: a new one at version 1, or the old one with its version raised.
abbrev pub written : Bytes → Option MemObject → MemObject
written stored none = record { bytes = stored; version = 1 }
written stored (some obj) = record { bytes = stored; version = obj.version + 1 }

unfoldable pub put : Bytes → Bytes → InMemory → InMemory × Outcome (Unit {0})
put path stored m = (update m path (some (written stored (m path))), ok tt)

-- The tests of `PutIfMatch`: may this write go ahead?
unfoldable pub matches : Option MemObject → Option Version → Bool
matches none none = true
matches (some obj) none = false
matches none (some v) = false
matches (some obj) (some v) = same v.etag (decimal obj.version)

unfoldable pub put_if_match :
    Bytes → Bytes → Option Version → InMemory → InMemory × Outcome (Unit {0})
unfolding matches
put_if_match path stored version m =
    if matches (m path) version
    then (update m path (some (written stored (m path))), ok tt)
    else (m, err precondition_failed)

unfoldable pub delete : Bytes → InMemory → InMemory × Outcome (Unit {0})
delete path m = (update m path none, ok tt)

abbrev pub in_memory : ObjectStore InMemory
in_memory = record { get = get; put = put; put_if_match = put_if_match; delete = delete }
