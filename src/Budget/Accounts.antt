-- ===== src/Budget/Accounts.antt =====
-- buffer/budget.go: the counts of the budget, and what its clients hold.
use opendata_go.Base.{
  leb, inr, ltb→lt, none, subst, ◌||◌, ◌≢◌, inl, some, ap, ◌∙◌, ltb, ◌==◌, ◌-◌, ◌<◌, refl, ◌≤◌,
  arith, Bool-cases, Option, ◌++◌, ◌+◌, [], ◌∷◌, List, ◌≡◌, ℕ,
}
use opendata_go.Budget.{
  ensure_waiter_of, wake, wake_drained, pos, Budget, pass, wait, reserve_bytes, acquire_batch_slot,
  release, add_reservation,
}

-- What the clients hold: for a message, or the open accumulator, its bytes; for a batch in flight
-- its bytes and a slot.
pub record Holding : Type 0 where
  pub bytes : ℕ
  pub slots : ℕ

abbrev pub total_bytes : List Holding → ℕ
total_bytes [] = 0
total_bytes (h ∷ hs) = h.bytes + total_bytes hs

abbrev pub total_slots : List Holding → ℕ
total_slots [] = 0
total_slots (h ∷ hs) = h.slots + total_slots hs

-- A budget and its clients: they reserve, take a slot for what they hold, merge what they hold, add
-- framing to it and release it, each whole.
pub data Reachable (b0 : Budget) : Budget → List Holding → Type 0 where
  start : Reachable b0 b0 []
  reserved :
      {b b' : Budget} {hs : List Holding} (n : ℕ)
      → Reachable b0 b hs
      → reserve_bytes n b ≡ (b', pass)
      → Reachable b0 b' (record { bytes = n; slots = 0 } ∷ hs)
  turned_away :
      {b b' : Budget} {hs : List Holding} (n ch : ℕ)
      → Reachable b0 b hs
      → reserve_bytes n b ≡ (b', wait ch)
      → Reachable b0 b' hs
  took_slot :
      {b b' : Budget} (h : Holding) (hs hs' : List Holding)
      → Reachable b0 b (hs ++ (h ∷ hs'))
      → acquire_batch_slot b ≡ (b', pass)
      → Reachable b0 b' (hs ++ (record h { slots = h.slots + 1 } ∷ hs'))
  no_slot :
      {b b' : Budget} {hs : List Holding} (ch : ℕ)
      → Reachable b0 b hs
      → acquire_batch_slot b ≡ (b', wait ch)
      → Reachable b0 b' hs
  merged :
      {b : Budget} (h h' : Holding) (hs : List Holding)
      → Reachable b0 b (h ∷ h' ∷ hs)
      → Reachable b0 b (record { bytes = h.bytes + h'.bytes; slots = h.slots + h'.slots } ∷ hs)
  framed :
      {b : Budget} (n : ℕ) (h : Holding) (hs hs' : List Holding)
      → Reachable b0 b (hs ++ (h ∷ hs'))
      → Reachable b0 (add_reservation (pos n) b) (hs ++ (record h { bytes = h.bytes + n } ∷ hs'))
  released :
      {b : Budget} (h : Holding) (hs hs' : List Holding)
      → Reachable b0 b (hs ++ (h ∷ hs'))
      → Reachable b0 (release h.bytes h.slots b) (hs ++ hs')

total_bytes-append :
    (hs hs' : List Holding) → total_bytes (hs ++ hs') ≡ total_bytes hs + total_bytes hs'
total_bytes-append [] hs' = omega arith
total_bytes-append (h ∷ hs) hs' = omega (arith, total_bytes-append hs hs')

total_slots-append :
    (hs hs' : List Holding) → total_slots (hs ++ hs') ≡ total_slots hs + total_slots hs'
total_slots-append [] hs' = omega arith
total_slots-append (h ∷ hs) hs' = omega (arith, total_slots-append hs hs')

-- A budget that differs from another in its counts, and in its channels.
pub record Counts (bytes batches : ℕ) (b b' : Budget) : Type 0 where
  pub bytes_are : b'.bytes_used ≡ bytes
  pub batches_are : b'.batches_used ≡ batches
  pub max_is : b'.max_batches ≡ b.max_batches

Counts-ensure_waiter :
    (w : Option ℕ) (b : Budget) → Counts b.bytes_used b.batches_used b (ensure_waiter_of w b).0
Counts-ensure_waiter none b = record { bytes_are = refl; batches_are = refl; max_is = refl }
Counts-ensure_waiter (some ch) b = record { bytes_are = refl; batches_are = refl; max_is = refl }

ensure_waiter-waits : (w : Option ℕ) (b : Budget) → (ensure_waiter_of w b).1 ≢ pass
ensure_waiter-waits none b e = cc e
ensure_waiter-waits (some ch) b e = cc e

Counts-wake_drained : (b : Budget) → Counts b.bytes_used b.batches_used b (wake_drained b)
Counts-wake_drained b = elim (Bool-cases (b.batches_used == 0)) [
  | inl e ↦ record { bytes_are = rw e; batches_are = rw e; max_is = rw e }
  | inr e ↦ record { bytes_are = rw e; batches_are = rw e; max_is = rw e }
]

pub reserve_bytes-pass :
    (n : ℕ) (b : Budget)
    → (reserve_bytes n b).1 ≡ pass
    → Counts (b.bytes_used + n) b.batches_used b (reserve_bytes n b).0
unfolding reserve_bytes
reserve_bytes-pass n b e =
    elim (Bool-cases ((b.bytes_used == 0) || leb (b.bytes_used + n) b.max_bytes)) [
      | inl h ↦
          rw (h, reserve_bytes) (record { bytes_are = refl; batches_are = refl; max_is = refl })
      | inr h ↦ absurd (ensure_waiter-waits b.waiter b (rw (h, reserve_bytes) at e))
    ]

pub reserve_bytes-wait :
    (n ch : ℕ) (b : Budget)
    → (reserve_bytes n b).1 ≡ wait ch
    → Counts b.bytes_used b.batches_used b (reserve_bytes n b).0
unfolding reserve_bytes
reserve_bytes-wait n ch b e =
    elim (Bool-cases ((b.bytes_used == 0) || leb (b.bytes_used + n) b.max_bytes)) [
      | inl h ↦ let bad : pass ≡ wait ch = rw (h, reserve_bytes) at e in absurd (cc bad)
      | inr h ↦ rw (h, reserve_bytes) (Counts-ensure_waiter b.waiter b)
    ]

acquire_batch_slot-pass :
    (b : Budget)
    → (acquire_batch_slot b).1 ≡ pass
    → Counts b.bytes_used (b.batches_used + 1) b (acquire_batch_slot b).0
      × (b.batches_used < b.max_batches)
unfolding acquire_batch_slot
acquire_batch_slot-pass b e = elim (Bool-cases (ltb b.batches_used b.max_batches)) [
  | inl h ↦ (
    rw (h, acquire_batch_slot) (record { bytes_are = refl; batches_are = refl; max_is = refl }),
    ltb→lt b.batches_used b.max_batches h,
  )
  | inr h ↦ absurd (ensure_waiter-waits b.waiter b (rw (h, acquire_batch_slot) at e))
]

acquire_batch_slot-wait :
    (ch : ℕ) (b : Budget)
    → (acquire_batch_slot b).1 ≡ wait ch
    → Counts b.bytes_used b.batches_used b (acquire_batch_slot b).0
unfolding acquire_batch_slot
acquire_batch_slot-wait ch b e = elim (Bool-cases (ltb b.batches_used b.max_batches)) [
  | inl h ↦ let bad : pass ≡ wait ch = rw (h, acquire_batch_slot) at e in absurd (cc bad)
  | inr h ↦ rw (h, acquire_batch_slot) (Counts-ensure_waiter b.waiter b)
]

pub release-Counts :
    (bytes batches : ℕ) (b : Budget)
    → Counts (b.bytes_used - bytes) (b.batches_used - batches) b (release bytes batches b)
unfolding release
release-Counts bytes batches b =
    let c = Counts-wake_drained (
      wake (record b {
        bytes_used = b.bytes_used - bytes;
        batches_used = b.batches_used - batches;
      })) in
    record { bytes_are = c.bytes_are; batches_are = c.batches_are; max_is = c.max_is }

add_reservation-Counts :
    (n : ℕ) (b : Budget) → Counts (b.bytes_used + n) b.batches_used b (add_reservation (pos n) b)
unfolding add_reservation
add_reservation-Counts n b = record { bytes_are = refl; batches_are = refl; max_is = refl }

-- The counts are exact, and the slots in use within their cap.
pub record Balanced (b0 b : Budget) (hs : List Holding) : Type 0 where
  pub bytes_exact : b.bytes_used ≡ total_bytes hs
  pub slots_exact : b.batches_used ≡ total_slots hs
  pub slots_capped : b.batches_used ≤ b0.max_batches
  pub cap_is : b.max_batches ≡ b0.max_batches

Balanced-Counts :
    {b0 b b' : Budget} {hs hs' : List Holding} {n m : ℕ}
    → Balanced b0 b hs
    → Counts n m b b'
    → n ≡ total_bytes hs'
    → m ≡ total_slots hs'
    → m ≤ b0.max_batches
    → Balanced b0 b' hs'
Balanced-Counts i c e e' h = record {
  bytes_exact = c.bytes_are ∙ e;
  slots_exact = c.batches_are ∙ e';
  slots_capped = omega (arith, c.batches_are, h);
  cap_is = c.max_is ∙ i.cap_is;
}

-- However clients reserve, wait, take slots, merge, frame and release what they hold, the budget's
-- counts are exactly the sums of what they hold, so that nothing leaks and the stop at 0 never acts,
-- and the number of batches in flight never passes its cap.
pub Reachable-Balanced :
    {b0 b : Budget} {hs : List Holding}
    → b0.bytes_used ≡ 0
    → b0.batches_used ≡ 0
    → Reachable b0 b hs
    → Balanced b0 b hs
Reachable-Balanced z z' start = record {
  bytes_exact = z;
  slots_exact = z';
  slots_capped = omega (arith, z');
  cap_is = refl;
}
Reachable-Balanced z z' (reserved {b} {b'} {hs} n r e) =
    let i = Reachable-Balanced z z' r in
    let c = reserve_bytes-pass n b (ap (λ x. x.1) e) in
    Balanced-Counts i (subst (Counts _ _ b) (ap (λ x. x.0) e) c) (omega (arith, i.bytes_exact))
      (omega (arith, i.slots_exact)) i.slots_capped
Reachable-Balanced z z' (turned_away {b} {b'} {hs} n ch r e) =
    let i = Reachable-Balanced z z' r in
    let c = reserve_bytes-wait n ch b (ap (λ x. x.1) e) in
    Balanced-Counts i (subst (Counts _ _ b) (ap (λ x. x.0) e) c) i.bytes_exact i.slots_exact
      i.slots_capped
Reachable-Balanced z z' (took_slot {b} {b'} h hs hs' r e) =
    let i = Reachable-Balanced z z' r in
    let (c, room) = acquire_batch_slot-pass b (ap (λ x. x.1) e) in
    let h' = record h { slots = h.slots + 1 } in
    Balanced-Counts i (subst (Counts _ _ b) (ap (λ x. x.0) e) c)
      (omega
        (arith, i.bytes_exact, total_bytes-append hs (h ∷ hs'), total_bytes-append hs (h' ∷ hs')))
      (omega
        (arith, i.slots_exact, total_slots-append hs (h ∷ hs'), total_slots-append hs (h' ∷ hs')))
      (omega (arith, room, i.cap_is))
Reachable-Balanced z z' (no_slot {b} {b'} {hs} ch r e) =
    let i = Reachable-Balanced z z' r in
    let c = acquire_batch_slot-wait ch b (ap (λ x. x.1) e) in
    Balanced-Counts i (subst (Counts _ _ b) (ap (λ x. x.0) e) c) i.bytes_exact i.slots_exact
      i.slots_capped
Reachable-Balanced z z' (merged {b} h h' hs r) =
    let i = Reachable-Balanced z z' r in
    record {
      bytes_exact = omega (arith, i.bytes_exact);
      slots_exact = omega (arith, i.slots_exact);
      slots_capped = i.slots_capped;
      cap_is = i.cap_is;
    }
Reachable-Balanced z z' (framed {b} n h hs hs' r) =
    let i = Reachable-Balanced z z' r in
    let h' = record h { bytes = h.bytes + n } in
    Balanced-Counts i (add_reservation-Counts n b)
      (omega
        (arith, i.bytes_exact, total_bytes-append hs (h ∷ hs'), total_bytes-append hs (h' ∷ hs')))
      (omega
        (arith, i.slots_exact, total_slots-append hs (h ∷ hs'), total_slots-append hs (h' ∷ hs')))
      i.slots_capped
Reachable-Balanced z z' (released {b} h hs hs' r) =
    let i = Reachable-Balanced z z' r in
    Balanced-Counts i (release-Counts h.bytes h.slots b)
      (omega (arith, i.bytes_exact, total_bytes-append hs (h ∷ hs'), total_bytes-append hs hs'))
      (omega (arith, i.slots_exact, total_slots-append hs (h ∷ hs'), total_slots-append hs hs'))
      (omega (arith, i.slots_capped))
