-- ===== src/Producer/Append.antt =====
-- buffer/producer.go: `AppendContext`, up to the message's way into the channel, and `reserveBytes` of
-- buffer/budget.go as a loop. Which case of a `select` is taken is an argument, as is what others do to
-- the budget meanwhile.
use opendata_go.Base.{
  ◌⊎◌, ◌+◌, ◌≡◌, panic, ok, producer_halted, invalid_input, ◌==◌, if◌then◌else◌, shutdown, Outcome,
  context_done, none, Bool, some, List, Option, Error, ℕ, length, [], ◌∷◌,
}
use opendata_go.Bytes.{ℤ, Bytes}
use opendata_go.Budget.{Budget, Turn, reserve_bytes, pass, wait, release, append_byte_cost}
use opendata_go.Producer.Accumulator.{AppendMessage}

-- What ends the last wait of `reserveBytes`, where it has to wait that long.
pub data Stop : Type 0 where
  context_fired shutdown_closed : Stop

abbrev pub stop_error : Stop → Error
stop_error context_fired = context_done
stop_error shutdown_closed = shutdown

pub record Reserved : Type 0 where
  pub budget : Budget
  pub error : Option Error

-- A turn of `reserveBytes`, and what follows where it waits.
abbrev pub turned : Budget × Turn → Reserved → Reserved
turned (b, pass) later = record { budget = b; error = none }
turned (b, wait ch) later = later

-- The loop of `reserveBytes`: `wakes` is what others did to the budget before each wake-up.
unfoldable pub reserve_loop : ℕ → List (Budget → Budget) → Stop → Budget → Reserved
reserve_loop n [] stop b =
    turned (reserve_bytes n b)
      (record { budget = (reserve_bytes n b).0; error = some (stop_error stop) })
reserve_loop n (others ∷ wakes) stop b =
    let later = reserve_loop n wakes stop (others (reserve_bytes n b).0) in
    turned (reserve_bytes n b) later

-- How the `select` that sends the message ends. `Close` may have closed the channel: then the `select`
-- may take the send, which panics.
pub data SendResult : Type 0 where
  sent : SendResult
  context_over : SendResult
  rotator_over : SendResult
  channel_closed : SendResult

pub record Appended : Type 0 where
  pub budget : Budget
  pub message : Option AppendMessage
  pub error : Option Error

abbrev pub refused : Budget → Error → Appended
refused b e = record { budget = b; message = none; error = some e }

abbrev pub send : SendResult → AppendMessage → (Budget → Budget) → Budget → Outcome Appended
send sent msg later b = ok (record { budget = b; message = some msg; error = none })
send context_over msg later b = ok (refused (release msg.byte_cost 0 (later b)) context_done)
send rotator_over msg later b = ok (refused (release msg.byte_cost 0 (later b)) shutdown)
send channel_closed msg later b = panic

-- What follows `reserveBytes`.
unfoldable pub append_reserved :
    Reserved → SendResult → (Budget → Budget) → AppendMessage → Outcome Appended
append_reserved reserved sending later msg = elim reserved.error [
  | some e ↦ ok (refused reserved.budget e)
  | none ↦ send sending msg later reserved.budget
]

-- `later` is what others do to the budget while the message waits for the channel; `now` and `watcher`
-- are the clock's reading and the new watcher.
unfoldable pub append_context :
    List Bytes
    → Bytes
    → Bool
    → Budget
    → List (Budget → Budget)
    → Stop
    → SendResult
    → (Budget → Budget)
    → ℤ
    → ℕ
    → Outcome Appended
unfolding append_reserved reserve_loop
append_context entries metadata halted b wakes stop sending later now watcher =
    if length entries == 0
    then ok (refused b invalid_input)
    else if halted
    then ok (refused b producer_halted)
    else append_reserved (reserve_loop (append_byte_cost entries metadata) wakes stop b) sending
        later
        (record {
          entries = entries;
          metadata = metadata;
          ingestion_time_ms = now;
          watcher = watcher;
          byte_cost = append_byte_cost entries metadata;
        })

-- `Looked n b b'`: a wait for `n` bytes that began with `b` may look at `b'`, which is `b` or what
-- others left at a wake-up.
pub data Looked (n : ℕ) : List (Budget → Budget) → Budget → Budget → Type 0 where
  first : {wakes : List (Budget → Budget)} {b : Budget} → Looked n wakes b b
  woken :
      {others : Budget → Budget} {wakes : List (Budget → Budget)} {b b' : Budget}
      → Looked n wakes (others (reserve_bytes n b).0) b'
      → Looked n (others ∷ wakes) b b'

-- The bytes are held on top of what was seen, or none are, and there is an error.
abbrev LoopEnds : ℕ → List (Budget → Budget) → Budget → Reserved → Type 0
LoopEnds n wakes b r =
    (seen : Budget) × Looked n wakes b seen
    × ((r.error ≡ none)
          × (r.budget ≡ (reserve_bytes n seen).0)
          × (r.budget.bytes_used ≡ seen.bytes_used + n)
        ⊎ ((e : Error) × (r.error ≡ some e) × (r.budget.bytes_used ≡ seen.bytes_used)))

-- What `AppendContext` comes to, where `seen` is the budget at its last look: a message in the
-- channel, with its reservation; an error and no reservation; or the panic of a send on a closed
-- channel.
abbrev pub Settles :
    List Bytes → Bytes → SendResult → (Budget → Budget) → ℕ → Budget → Outcome Appended → Type 0
Settles entries metadata sending later watcher seen x =
    ((r : Appended) × (m : AppendMessage) × (x ≡ ok r)
      × (sending ≡ sent)
      × (r.message ≡ some m)
      × (r.error ≡ none)
      × (m.entries ≡ entries)
      × (m.metadata ≡ metadata)
      × (m.watcher ≡ watcher)
      × (m.byte_cost ≡ append_byte_cost entries metadata)
      × (r.budget.bytes_used ≡ seen.bytes_used + m.byte_cost))
    ⊎ (((r : Appended) × (e : Error) × (x ≡ ok r)
          × (r.message ≡ none)
          × (r.error ≡ some e)
          × ((r.budget.bytes_used ≡ seen.bytes_used)
              ⊎ (r.budget.bytes_used + append_byte_cost entries metadata
                  ≡ (later (reserve_bytes (append_byte_cost entries metadata) seen).0).bytes_used)))
        ⊎ (x ≡ panic) × (sending ≡ channel_closed))
