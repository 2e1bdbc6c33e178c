-- ===== src/Budget.antt =====
-- buffer/budget.go: `producerBudget`, the byte and batch caps of the producer. The mutex makes the
-- code between `Lock` and `Unlock` one step; a call that must wait is such a step again and again,
-- each behind the channel that the last one returned. Counts are int64 in the source; they are
-- numbers of bytes held in memory, so that the sums do not wrap.
pub mod Accounts
pub mod Wakeup
mod Tests
use opendata_go.Base.{
  leb, [], ◌||◌, length, some, ◌∷◌, false, ◌+◌, Bool, ◌==◌, ltb, List, if◌then◌else◌, Option, ◌-◌,
  none, ℕ,
}
use opendata_go.Bytes.{negsuc, pos, ℤ, Bytes}

-- `waiter` and `drain_ch` are channels by number, `next_ch` the next unused number, and `closed`
-- tells the channels that were closed.
pub record Budget : Type 0 where
  pub bytes_used : ℕ
  pub batches_used : ℕ
  pub max_bytes : ℕ
  pub max_batches : ℕ
  pub waiter : Option ℕ
  pub drain_ch : Option ℕ
  pub next_ch : ℕ
  pub closed : ℕ → Bool

abbrev pub at_least_one : ℤ → ℕ
at_least_one (pos n) = if ltb n 1 then 1 else n
at_least_one (negsuc n) = 1

abbrev pub new_budget : ℤ → ℤ → Budget
new_budget max_bytes max_batches = record {
  bytes_used = 0;
  batches_used = 0;
  max_bytes = at_least_one max_bytes;
  max_batches = at_least_one max_batches;
  waiter = none;
  drain_ch = none;
  next_ch = 0;
  closed = λ q. false;
}

-- `close(ch)`, where there is one.
abbrev pub close : Option ℕ → (ℕ → Bool) → (ℕ → Bool)
close none closed q = closed q
close (some ch) closed q = (q == ch) || closed q

-- What a caller finds: it may go on, or it waits on a channel.
pub data Turn : Type 0 where
  pass : Turn
  wait : ℕ → Turn

-- `ensureWaiterLocked`.
abbrev pub ensure_waiter_of : Option ℕ → Budget → Budget × Turn
ensure_waiter_of (some ch) b = (b, wait ch)
ensure_waiter_of none b =
    (record b { waiter = some b.next_ch; next_ch = b.next_ch + 1 }, wait b.next_ch)

abbrev pub ensure_waiter : Budget → Budget × Turn
ensure_waiter b = ensure_waiter_of b.waiter b

-- One turn of `reserveBytes`.
unfoldable pub reserve_bytes : ℕ → Budget → Budget × Turn
reserve_bytes n b =
    if (b.bytes_used == 0) || leb (b.bytes_used + n) b.max_bytes
    then (record b { bytes_used = b.bytes_used + n }, pass)
    else ensure_waiter b

-- One turn of `acquireBatchSlot`.
unfoldable pub acquire_batch_slot : Budget → Budget × Turn
acquire_batch_slot b =
    if ltb b.batches_used b.max_batches
    then (record b { batches_used = b.batches_used + 1 }, pass)
    else ensure_waiter b

abbrev pub wake : Budget → Budget
wake b = record b { waiter = none; closed = close b.waiter b.closed }

abbrev pub wake_drained : Budget → Budget
wake_drained b =
    if b.batches_used == 0
    then record b { drain_ch = none; closed = close b.drain_ch b.closed }
    else b

-- Subtraction stops at 0, as in the source.
unfoldable pub release : ℕ → ℕ → Budget → Budget
release bytes batches b =
    wake_drained (
      wake
        (record b { bytes_used = b.bytes_used - bytes; batches_used = b.batches_used - batches }))

-- One turn of `waitDrained`.
abbrev pub ensure_drain_of : Option ℕ → Budget → Budget × Turn
ensure_drain_of (some ch) b = (b, wait ch)
ensure_drain_of none b =
    (record b { drain_ch = some b.next_ch; next_ch = b.next_ch + 1 }, wait b.next_ch)

unfoldable pub wait_drained : Budget → Budget × Turn
wait_drained b = if b.batches_used == 0 then (b, pass) else ensure_drain_of b.drain_ch b

abbrev pub snapshot : Budget → ℕ × ℕ
snapshot b = (b.bytes_used, b.batches_used)

-- `bytesUsed += extra`, stopped at 0.
abbrev pub plus_extra : ℕ → ℤ → ℕ
plus_extra n (pos m) = n + m
plus_extra n (negsuc m) = n - (m + 1)

unfoldable pub add_reservation : ℤ → Budget → Budget
add_reservation extra b = wake (record b { bytes_used = plus_extra b.bytes_used extra })

abbrev pub sum_lengths : List Bytes → ℕ
sum_lengths [] = 0
sum_lengths (e ∷ es) = length e + sum_lengths es

unfoldable pub append_byte_cost : List Bytes → Bytes → ℕ
append_byte_cost entries metadata = sum_lengths entries + length metadata
