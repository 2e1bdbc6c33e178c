-- ===== src/Store/Memory/Stale.antt =====
-- objstore/memory.go: the versions of an object that is deleted and created again.
use opendata_go.Base.{sym, refl, some, ok, ◌≡◌}
use opendata_go.Bytes.{Bytes}
use opendata_go.Bytes.Decimal.{same_refl}
use opendata_go.Store.{GetResult}
use opendata_go.Store.Memory.{InMemory, version_etag, put, put_if_match, delete}
use opendata_go.Store.Memory.Laws.{view, matches_iff}
use opendata_go.Store.{version_of}

-- `DELETE` and a fresh `Put` of other bytes.
abbrev pub replace : Bytes → Bytes → InMemory → InMemory
replace p b m = (put p b (delete p m).0).0

replace_lem :
    (p b : Bytes) (m : InMemory) → replace p b m p ≡ some (record { bytes = b; version = 1 })
unfolding put delete
replace_lem p b m = simp (same_refl p)

-- A client reads an object at its first version; another client deletes it and puts other bytes.
-- The first client's version token is the new object's as well, so that its conditional put goes
-- ahead and overwrites bytes that it never read.
pub stale_version_accepted :
    (p first second third : Bytes) (m : InMemory)
    → m p ≡ some (record { bytes = first; version = 1 })
    → (r : GetResult) × (view (replace p second m) p ≡ some r)
      × (r.bytes ≡ second)
      × (version_of (view m p) ≡ some r.version)
      × ((put_if_match p third (version_of (view m p)) (replace p second m)).1 ≡ ok tt)
unfolding put_if_match
stale_version_accepted p first second third m e =
    let now = replace_lem p second m in
    let token : version_of (view m p) ≡ version_of (view (replace p second m) p) = rw (e, now) in
    (
      record { bytes = second; version = version_etag 1 },
      rw now,
      refl,
      rw e,
      rw ((matches_iff (replace p second m p) (version_of (view m p))).1 (sym token)),
    )
