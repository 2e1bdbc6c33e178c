-- ===== src/Store/Memory/Answers.antt =====
-- objstore/memory.go: `InMemory` answers every call.
use opendata_go.Base.{
  ◌⊎◌, ◌≡◌, inl, inr, ok, err, not_found, precondition_failed, Option, Option-cases, Bool-cases,
}
use opendata_go.Bytes.{Bytes}
use opendata_go.Store.{Version, GetResult}
use opendata_go.Store.Memory.{InMemory, in_memory, version_etag, get, put_if_match, matches}
use opendata_go.Enqueuer.Terminates.{Reliable}

pub in_memory-Reliable : Reliable in_memory
unfolding get put_if_match
in_memory-Reliable = record { get_answers = get_answers; put_answers = put_answers }
  where
    get_answers :
        (p : Bytes) (s : InMemory)
        → ((r : GetResult) × ((get p s).1 ≡ ok r)) ⊎ ((get p s).1 ≡ err not_found)
    get_answers p s = elim (Option-cases (s p)) [
      | inl missing ↦ inr (rw (missing, get))
      | inr (obj, found) ↦
          inl (record { bytes = obj.bytes; version = version_etag obj.version }, rw (found, get))
    ]

    put_answers :
        (p b : Bytes) (v : Option Version) (s : InMemory)
        → ((put_if_match p b v s).1 ≡ ok tt) ⊎ ((put_if_match p b v s).1 ≡ err precondition_failed)
    put_answers p b v s = elim (Bool-cases (matches (s p) v)) [
      | inl h ↦ inl (rw h)
      | inr h ↦ inr (rw h)
    ]
