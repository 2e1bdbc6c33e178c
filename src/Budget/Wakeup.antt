-- ===== src/Budget/Wakeup.antt =====
-- buffer/budget.go: the channel `waiter`, and callers that wait on it.
use opendata_go.Base.{
  ◌∙◌, ◌+◌, sym, leb, ==_iff, ◌-◌, none, ◌||◌, refl, ap, some, inr, ◌==◌, Bool, ltb, true, inl, ◌⊎◌,
  Bool-cases, Option, ◌≡◌, ℕ,
}
use mathlib.Core.Option.{some-injective}
use opendata_go.Budget.{
  wake, ensure_drain_of, ℤ, Budget, Turn, pass, wait, close, ensure_waiter_of, reserve_bytes,
  acquire_batch_slot, release, add_reservation, wake_drained, wait_drained,
}

-- A channel that waiters watch is closed already, or is the one that the next release closes.
abbrev pub Watched : ℕ → Budget → Type 0
Watched ch b = (b.closed ch ≡ true) ⊎ (b.waiter ≡ some ch)

-- The steps of the budget.
pub data Step : Budget → Budget → Type 0 where
  reserve : {b : Budget} (n : ℕ) → Step b (reserve_bytes n b).0
  acquire : {b : Budget} → Step b (acquire_batch_slot b).0
  drained : {b : Budget} → Step b (wait_drained b).0
  give_back : {b : Budget} (bytes batches : ℕ) → Step b (release bytes batches b)
  reconcile : {b : Budget} (extra : ℤ) → Step b (add_reservation extra b)

pub data Steps (b : Budget) : Budget → Type 0 where
  here : Steps b b
  then : {b' b'' : Budget} → Steps b b' → Step b' b'' → Steps b b''

Watched-ensure_waiter :
    (w : Option ℕ) (b : Budget) (ch : ℕ)
    → b.waiter ≡ w
    → Watched ch b
    → Watched ch (ensure_waiter_of w b).0
Watched-ensure_waiter none b ch e (inl closed) = inl closed
Watched-ensure_waiter none b ch e (inr current) = absurd (cc (e, current))
Watched-ensure_waiter (some x) b ch e h = h

close-own : (w : Option ℕ) (f : ℕ → Bool) (ch : ℕ) → w ≡ some ch → close w f ch ≡ true
close-own none f ch e = absurd (cc e)
close-own (some x) f ch e =
    let same : (ch == x) ≡ true = (==_iff ch x).1 (sym (some-injective _ _ e)) in rw same

close-keeps : (w : Option ℕ) (f : ℕ → Bool) (ch : ℕ) → f ch ≡ true → close w f ch ≡ true
close-keeps none f ch e = e
close-keeps (some x) f ch e = elim (Bool-cases (ch == x)) [ inl h ↦ rw h | inr h ↦ rw h e ]

-- What a wake-up does to a watched channel.
close-Watched : (b : Budget) (ch : ℕ) → Watched ch b → close b.waiter b.closed ch ≡ true
close-Watched b ch (inl closed) = close-keeps b.waiter b.closed ch closed
close-Watched b ch (inr current) = close-own b.waiter b.closed ch current

closed-wake_drained : (b : Budget) (ch : ℕ) → b.closed ch ≡ true → (wake_drained b).closed ch ≡ true
closed-wake_drained b ch e = elim (Bool-cases (b.batches_used == 0)) [
  | inl h ↦ rw h (close-keeps b.drain_ch b.closed ch e)
  | inr h ↦ rw h e
]

release_wakes :
    (bytes batches : ℕ) (b : Budget) (ch : ℕ)
    → Watched ch b
    → (release bytes batches b).closed ch ≡ true
unfolding release
release_wakes bytes batches b ch h =
    closed-wake_drained
      (wake
        (record b { bytes_used = b.bytes_used - bytes; batches_used = b.batches_used - batches }))
      ch (close-Watched b ch h)

ensure_drain-Watched :
    (w : Option ℕ) (b : Budget) (ch : ℕ) → Watched ch b → Watched ch (ensure_drain_of w b).0
ensure_drain-Watched none b ch h = h
ensure_drain-Watched (some x) b ch h = h

Step-Watched : {b b' : Budget} (ch : ℕ) → Step b b' → Watched ch b → Watched ch b'
unfolding reserve_bytes acquire_batch_slot wait_drained add_reservation
Step-Watched ch (reserve {b} n) h =
    elim (Bool-cases ((b.bytes_used == 0) || leb (b.bytes_used + n) b.max_bytes)) [
      | inl t ↦ rw (t, reserve_bytes) h
      | inr t ↦ rw (t, reserve_bytes) (Watched-ensure_waiter b.waiter b ch refl h)
    ]
Step-Watched ch (acquire {b}) h = elim (Bool-cases (ltb b.batches_used b.max_batches)) [
  | inl t ↦ rw (t, acquire_batch_slot) h
  | inr t ↦ rw (t, acquire_batch_slot) (Watched-ensure_waiter b.waiter b ch refl h)
]
Step-Watched ch (drained {b}) h = elim (Bool-cases (b.batches_used == 0)) [
  | inl t ↦ rw (t, wait_drained) h
  | inr t ↦ rw (t, wait_drained) (ensure_drain-Watched b.drain_ch b ch h)
]
Step-Watched ch (give_back {b} bytes batches) h = inl (release_wakes bytes batches b ch h)
Step-Watched ch (reconcile {b} extra) h = inl (close-Watched b ch h)

Steps-Watched : {b b' : Budget} (ch : ℕ) → Steps b b' → Watched ch b → Watched ch b'
Steps-Watched ch here h = h
Steps-Watched ch (then steps step) h = Step-Watched ch step (Steps-Watched ch steps h)

abbrev channel_of : Turn → ℕ
channel_of pass = 0
channel_of (wait ch) = ch

waits-Watched :
    (w : Option ℕ) (b : Budget) (ch : ℕ)
    → b.waiter ≡ w
    → (ensure_waiter_of w b).1 ≡ wait ch
    → Watched ch (ensure_waiter_of w b).0
waits-Watched none b ch at_w e = inr (ap some (ap channel_of e))
waits-Watched (some x) b ch at_w e = inr (at_w ∙ ap some (ap channel_of e))

reserve_bytes-Watched :
    (n : ℕ) (b : Budget) (ch : ℕ)
    → (reserve_bytes n b).1 ≡ wait ch
    → Watched ch (reserve_bytes n b).0
unfolding reserve_bytes
reserve_bytes-Watched n b ch e =
    elim (Bool-cases ((b.bytes_used == 0) || leb (b.bytes_used + n) b.max_bytes)) [
      | inl t ↦ let bad : pass ≡ wait ch = rw (t, reserve_bytes) at e in absurd (cc bad)
      | inr t ↦
          rw (t, reserve_bytes) (waits-Watched b.waiter b ch refl (rw (t, reserve_bytes) at e))
    ]

acquire_batch_slot-Watched :
    (b : Budget) (ch : ℕ) → (acquire_batch_slot b).1 ≡ wait ch → Watched ch (acquire_batch_slot b).0
unfolding acquire_batch_slot
acquire_batch_slot-Watched b ch e = elim (Bool-cases (ltb b.batches_used b.max_batches)) [
  | inl t ↦ let bad : pass ≡ wait ch = rw (t, acquire_batch_slot) at e in absurd (cc bad)
  | inr t ↦
      rw (t, acquire_batch_slot)
        (waits-Watched b.waiter b ch refl (rw (t, acquire_batch_slot) at e))
]

-- No wake-up is lost: a caller of `reserveBytes` or of `acquireBatchSlot` that was told to wait on a
-- channel finds it closed after the next release, whatever the budget's users do before.
pub release_wakes_waiters :
    (b b' : Budget) (n ch bytes batches : ℕ)
    → ((reserve_bytes n b).1 ≡ wait ch) × Steps (reserve_bytes n b).0 b'
      ⊎ ((acquire_batch_slot b).1 ≡ wait ch) × Steps (acquire_batch_slot b).0 b'
    → (release bytes batches b').closed ch ≡ true
release_wakes_waiters b b' n ch bytes batches (inl (e, steps)) =
    release_wakes bytes batches b' ch (Steps-Watched ch steps (reserve_bytes-Watched n b ch e))
release_wakes_waiters b b' n ch bytes batches (inr (e, steps)) =
    release_wakes bytes batches b' ch (Steps-Watched ch steps (acquire_batch_slot-Watched b ch e))
