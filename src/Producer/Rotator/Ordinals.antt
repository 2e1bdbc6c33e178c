-- ===== src/Producer/Rotator/Ordinals.antt =====
-- buffer/producer.go: the ordinals that `rotator` gives to batches.
use opendata_go.Base.{
  length-append, arith, some, ◌++◌, none, inr, false, leb, inl, [], ◌==◌, length, ◌+◌, Bool-cases,
  ◌∷◌, List, Option, ◌≡◌, ℕ,
}
use opendata_go.Bytes.{u64}
use opendata_go.Budget.{Budget}
use opendata_go.Producer.Accumulator.{is_empty, add, drain_append_ch}
use opendata_go.Producer.Rotator.{
  shutting_down, time, manual, size, FlushReason, PendingBatch, Rotator, Event, append, flush, tick,
  closing, emit, handle, rotate, pending_of,
}

-- The batches are numbered on from `n`, and none is empty.
abbrev pub NumberedFrom : ℕ → List PendingBatch → Type 0
NumberedFrom n [] = Unit {0}
NumberedFrom n (pb ∷ pbs) =
    (pb.ordinal ≡ u64 n) × ((length pb.entries == 0) ≡ false) × NumberedFrom (n + 1) pbs

pub record InOrder (st : Rotator) : Type 0 where
  pub next_is : st.ordinal ≡ u64 (length st.sent)
  pub sent_in_order : NumberedFrom 0 st.sent

NumberedFrom-append :
    (n : ℕ) (pbs : List PendingBatch) (pb : PendingBatch)
    → NumberedFrom n pbs
    → pb.ordinal ≡ u64 (n + length pbs)
    → (length pb.entries == 0) ≡ false
    → NumberedFrom n (pbs ++ (pb ∷ []))
NumberedFrom-append n [] pb h e f = (omega (arith, e), f, tt)
NumberedFrom-append n (x ∷ pbs) pb (e', f', h) e f =
    (e', f', NumberedFrom-append (n + 1) pbs pb h (omega (arith, e)) f)

emit-InOrder :
    (reason : FlushReason) (ack : Option ℕ) (slot : Option Budget) (st : Rotator)
    → InOrder st
    → InOrder (emit reason ack slot st)
unfolding emit
emit-InOrder reason ack none st i = elim (Bool-cases (is_empty st.batch)) [
  | inl e ↦ rw (e, emit) (record { next_is = i.next_is; sent_in_order = i.sent_in_order })
  | inr e ↦ rw (e, emit) (record { next_is = i.next_is; sent_in_order = i.sent_in_order })
]
emit-InOrder reason ack (some b) st i = elim (Bool-cases (is_empty st.batch)) [
  | inl e ↦ rw (e, emit) (record { next_is = i.next_is; sent_in_order = i.sent_in_order })
  | inr e ↦
      rw (e, emit)
        (record {
          next_is = omega (arith, i.next_is, length-append st.sent (pending_of reason ack st ∷ []));
          sent_in_order =
              NumberedFrom-append 0 st.sent (pending_of reason ack st) i.sent_in_order
                (omega (arith, i.next_is)) e;
        })
]

handle-InOrder :
    (flush_size : ℕ) (event : Event) (slot : Option Budget) (st : Rotator)
    → InOrder st
    → InOrder (handle flush_size event slot st)
unfolding handle
handle-InOrder flush_size (append msg) slot st i =
    let st' = record st { batch = add msg st.batch } in
    let i' : InOrder st' = record { next_is = i.next_is; sent_in_order = i.sent_in_order } in
    elim (Bool-cases (leb flush_size st'.batch.size_bytes)) [
      | inl full ↦ rw (full, handle) (emit-InOrder size none slot st' i')
      | inr room ↦ rw (room, handle) i'
    ]
handle-InOrder flush_size (flush ack waiting) slot st i =
    emit-InOrder manual (some ack) slot (record st { batch = drain_append_ch waiting st.batch })
      (record { next_is = i.next_is; sent_in_order = i.sent_in_order })
handle-InOrder flush_size tick slot st i = emit-InOrder time none slot st i
handle-InOrder flush_size closing slot st i = emit-InOrder shutting_down none slot st i

-- The batches that the rotator sends have the ordinals 0, 1, 2, … without a gap, and none is empty,
-- also where a batch is dropped on shutdown.
pub rotate-InOrder :
    (flush_size : ℕ) (events : List (Event × Option Budget)) (st : Rotator)
    → InOrder st
    → InOrder (rotate flush_size events st)
unfolding rotate
rotate-InOrder flush_size [] st i = i
rotate-InOrder flush_size ((event, slot) ∷ events) st i =
    rotate-InOrder flush_size events (handle flush_size event slot st)
      (handle-InOrder flush_size event slot st i)
