-- ===== src/Producer/Rotator/Batches.antt =====
-- buffer/producer.go: what goes into the batches of `rotator`.
use opendata_go.Base.{
  none, leb, subst, refl, append_assoc, append-nil, inr, sym, ◌∙◌, inl, Bool-cases, [], ap, ◌++◌,
  some, ◌∷◌, ◌≡◌, List, Option, ℕ,
}
use opendata_go.Bytes.{Bytes}
use opendata_go.Budget.{Budget}
use opendata_go.Producer.Accumulator.{
  all_watchers-append, all_entries-append, AppendMessage, add, is_empty, drain_append_ch,
  drain_append_ch_lem, all_entries, all_watchers,
}
use opendata_go.Producer.Rotator.{
  shutting_down, time, manual, size, FlushReason, PendingBatch, Rotator, Event, append, flush, tick,
  closing, emit, handle, rotate, pending_of,
}

-- The messages of the events.
unfoldable pub messages : List (Event × Option Budget) → List AppendMessage
messages [] = []
messages ((append msg, slot) ∷ events) = msg ∷ messages events
messages ((flush ack waiting, slot) ∷ events) = waiting ++ messages events
messages ((tick, slot) ∷ events) = messages events
messages ((closing, slot) ∷ events) = messages events

-- The slot is got at each event: no shutdown.
unfoldable pub AllSlots : List (Event × Option Budget) → Type 0
AllSlots [] = Unit {0}
AllSlots ((event, slot) ∷ events) = ((b : Budget) × (slot ≡ some b)) × AllSlots events

unfoldable pub entries_sent : List PendingBatch → List Bytes
entries_sent [] = []
entries_sent (pb ∷ pbs) = pb.entries ++ entries_sent pbs

unfoldable pub watchers_sent : List PendingBatch → List ℕ
watchers_sent [] = []
watchers_sent (pb ∷ pbs) = pb.watchers ++ watchers_sent pbs

-- What went through the rotator so far: what it sent, and what it holds.
abbrev pub passed_entries : Rotator → List Bytes
passed_entries st = entries_sent st.sent ++ st.batch.entries

abbrev pub passed_watchers : Rotator → List ℕ
passed_watchers st = watchers_sent st.sent ++ st.batch.watchers

entries_sent-append :
    (xs ys : List PendingBatch) → entries_sent (xs ++ ys) ≡ entries_sent xs ++ entries_sent ys
unfolding entries_sent
entries_sent-append [] ys = refl
entries_sent-append (x ∷ xs) ys =
    ap (λ l. x.entries ++ l) (entries_sent-append xs ys)
    ∙ sym (append_assoc x.entries (entries_sent xs) (entries_sent ys))

watchers_sent-append :
    (xs ys : List PendingBatch) → watchers_sent (xs ++ ys) ≡ watchers_sent xs ++ watchers_sent ys
unfolding watchers_sent
watchers_sent-append [] ys = refl
watchers_sent-append (x ∷ xs) ys =
    ap (λ l. x.watchers ++ l) (watchers_sent-append xs ys)
    ∙ sym (append_assoc x.watchers (watchers_sent xs) (watchers_sent ys))

record Kept (st st' : Rotator) : Type 0 where
  entries_kept : passed_entries st' ≡ passed_entries st
  watchers_kept : passed_watchers st' ≡ passed_watchers st

emit-Kept :
    (reason : FlushReason) (ack : Option ℕ) (b : Budget) (st : Rotator)
    → Kept st (emit reason ack (some b) st)
unfolding emit entries_sent watchers_sent
emit-Kept reason ack b st = elim (Bool-cases (is_empty st.batch)) [
  | inl e ↦ rw (e, emit) (record { entries_kept = refl; watchers_kept = refl })
  | inr e ↦
      rw (e, emit)
        (record {
          entries_kept =
              append-nil _
              ∙ entries_sent-append st.sent (pending_of reason ack st ∷ [])
              ∙ ap (λ l. entries_sent st.sent ++ l) (append-nil st.batch.entries);
          watchers_kept =
              append-nil _
              ∙ watchers_sent-append st.sent (pending_of reason ack st ∷ [])
              ∙ ap (λ l. watchers_sent st.sent ++ l) (append-nil st.batch.watchers);
        })
]

-- The messages of one event.
abbrev of_event : Event → List AppendMessage
of_event (append msg) = msg ∷ []
of_event (flush ack waiting) = waiting
of_event tick = []
of_event closing = []

-- `st'` is `st` with more messages passed.
record Passed (msgs : List AppendMessage) (st st' : Rotator) : Type 0 where
  entries_passed : passed_entries st' ≡ passed_entries st ++ all_entries msgs
  watchers_passed : passed_watchers st' ≡ passed_watchers st ++ all_watchers msgs

taken_in :
    (msgs : List AppendMessage) (st : Rotator)
    → Passed msgs st (record st { batch = drain_append_ch msgs st.batch })
taken_in msgs st =
    let a = drain_append_ch_lem msgs st.batch in
    record {
      entries_passed =
          ap (λ l. entries_sent st.sent ++ l) a.entries_are
          ∙ sym (append_assoc (entries_sent st.sent) st.batch.entries (all_entries msgs));
      watchers_passed =
          ap (λ l. watchers_sent st.sent ++ l) a.watchers_are
          ∙ sym (append_assoc (watchers_sent st.sent) st.batch.watchers (all_watchers msgs));
    }

Passed-Kept :
    {msgs : List AppendMessage} {st st' st'' : Rotator}
    → Passed msgs st st'
    → Kept st' st''
    → Passed msgs st st''
Passed-Kept p k = record {
  entries_passed = k.entries_kept ∙ p.entries_passed;
  watchers_passed = k.watchers_kept ∙ p.watchers_passed;
}

Passed-nothing : (st : Rotator) → Passed [] st st
unfolding all_entries all_watchers
Passed-nothing st = record {
  entries_passed = sym (append-nil _);
  watchers_passed = sym (append-nil _);
}

handle-Passed :
    (flush_size : ℕ) (event : Event) (b : Budget) (st : Rotator)
    → Passed (of_event event) st (handle flush_size event (some b) st)
unfolding handle drain_append_ch
handle-Passed flush_size (append msg) b st =
    let st' = record st { batch = add msg st.batch } in
    elim (Bool-cases (leb flush_size st'.batch.size_bytes)) [
      | inl full ↦
          rw (full, handle) (Passed-Kept (taken_in (msg ∷ []) st) (emit-Kept size none b st'))
      | inr room ↦ rw (room, handle) (taken_in (msg ∷ []) st)
    ]
handle-Passed flush_size (flush ack waiting) b st =
    Passed-Kept (taken_in waiting st)
      (emit-Kept manual (some ack) b (record st { batch = drain_append_ch waiting st.batch }))
handle-Passed flush_size tick b st = Passed-Kept (Passed-nothing st) (emit-Kept time none b st)
handle-Passed flush_size closing b st =
    Passed-Kept (Passed-nothing st) (emit-Kept shutting_down none b st)

Passed-then :
    {msgs msgs' : List AppendMessage} {st st' st'' : Rotator}
    → Passed msgs st st'
    → Passed msgs' st' st''
    → Passed (msgs ++ msgs') st st''
Passed-then {msgs} {msgs'} {st} p q = record {
  entries_passed =
      q.entries_passed
      ∙ ap (λ l. l ++ all_entries msgs') p.entries_passed
      ∙ append_assoc (passed_entries st) (all_entries msgs) (all_entries msgs')
      ∙ ap (λ l. passed_entries st ++ l) (sym (all_entries-append msgs msgs'));
  watchers_passed =
      q.watchers_passed
      ∙ ap (λ l. l ++ all_watchers msgs') p.watchers_passed
      ∙ append_assoc (passed_watchers st) (all_watchers msgs) (all_watchers msgs')
      ∙ ap (λ l. passed_watchers st ++ l) (sym (all_watchers-append msgs msgs'));
}

messages-step :
    (event : Event) (slot : Option Budget) (events : List (Event × Option Budget))
    → messages ((event, slot) ∷ events) ≡ of_event event ++ messages events
unfolding messages
messages-step (append msg) slot events = refl
messages-step (flush ack waiting) slot events = refl
messages-step tick slot events = refl
messages-step closing slot events = refl

rotate-Passed :
    (flush_size : ℕ) (events : List (Event × Option Budget)) (st : Rotator)
    → AllSlots events
    → Passed (messages events) st (rotate flush_size events st)
unfolding rotate AllSlots
rotate-Passed flush_size [] st all = unfold messages in Passed-nothing st
rotate-Passed flush_size ((event, slot) ∷ events) st ((b, got), all) =
    subst (λ m. Passed m st (rotate flush_size events (handle flush_size event slot st)))
      (sym (messages-step event slot events))
      (Passed-then
        (subst (λ x. Passed (of_event event) st (handle flush_size event x st)) (sym got)
          (handle-Passed flush_size event b st))
        (rotate-Passed flush_size events (handle flush_size event slot st) all))

-- While slots are granted, the batches sent and the open accumulator hold exactly the entries and
-- the watchers of all messages received, each in the order of arrival, however messages, flushes,
-- ticks and the closing are interleaved: no message is lost, doubled or reordered.
pub rotate_lem :
    (flush_size : ℕ) (events : List (Event × Option Budget)) (st : Rotator)
    → AllSlots events
    → (passed_entries (rotate flush_size events st)
        ≡ passed_entries st ++ all_entries (messages events))
      × (passed_watchers (rotate flush_size events st)
          ≡ passed_watchers st ++ all_watchers (messages events))
rotate_lem flush_size events st all =
    let p = rotate-Passed flush_size events st all in (p.entries_passed, p.watchers_passed)
