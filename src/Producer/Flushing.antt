-- ===== src/Producer/Flushing.antt =====
-- buffer/producer.go: `Flush`, and `waitDrained` of buffer/budget.go as a loop. Which case of a
-- `select` is taken is an argument, as is what the other goroutines do to the budget meanwhile.
mod Tests
use opendata_go.Base.{
  ◌⊎◌, refl, if_else, ==_iff, ◌∙◌, if_then, ap, sym, Bool, true, false, Option, none, some, List,
  [], ◌∷◌, ◌++◌, ◌≡◌, ◌≢◌, Error, shutdown, context_done, Outcome, ok, err, panic, ◌>>=◌,
  if◌then◌else◌, ℕ, ◌==◌, Bool-cases, inl, inr,
}
use mathlib.Core.Option.{some-injective}
use opendata_go.Budget.{ensure_drain_of, Budget, Turn, pass, wait, wait_drained}

pub data DrainSignal : Type 0 where
  -- The drain channel was closed, and the budget changed before the next look at it.
  drained : (Budget → Budget) → DrainSignal
  context_fired : DrainSignal
  shutdown_closed : DrainSignal

pub record Waited : Type 0 where
  pub budget : Budget
  pub error : Option Error

-- A turn of `waitDrained`, and what follows where it waits.
abbrev pub looked : Budget × Turn → Option Waited → Option Waited
looked (b, pass) later = some (record { budget = b; error = none })
looked (b, wait ch) later = later

-- The loop of `waitDrained`; none while it waits.
unfoldable pub wait_loop : List DrainSignal → Budget → Option Waited
wait_loop [] b = looked (wait_drained b) none
wait_loop (drained others ∷ signals) b =
    let later = wait_loop signals (others (wait_drained b).0) in looked (wait_drained b) later
wait_loop (context_fired ∷ signals) b =
    looked (wait_drained b)
      (some (record { budget = (wait_drained b).0; error = some context_done }))
wait_loop (shutdown_closed ∷ signals) b =
    looked (wait_drained b) (some (record { budget = (wait_drained b).0; error = some shutdown }))

-- What happens while `Flush` runs, in order: the rotator takes the message, the resolver answers it, one
-- of them ends, the context fires, the shutdown signal is closed, or others change the budget, which
-- closes the drain channel if `Flush` waits for it. A `select` skips what it does not listen to; a
-- signal that was given stays given, so the list may name it again.
pub data FlushEvent : Type 0 where
  message_taken rotator_ended resolver_ended context_over shutdown_over : FlushEvent
  answered : Option Error → FlushEvent
  changed : (Budget → Budget) → FlushEvent

-- The error of the wait comes before the flush's own.
abbrev pub or_flush_error : Option Error → Option Error → Option Error
or_flush_error flush_error none = flush_error
or_flush_error flush_error (some e) = some e

abbrev pub flush_ended : Option Error → Option Waited → Option Waited
flush_ended flush_error none = none
flush_ended flush_error (some w) = some (record w { error = or_flush_error flush_error w.error })

-- What the wait of the budget listens to.
unfoldable pub drain_signals : List FlushEvent → List DrainSignal
drain_signals [] = []
drain_signals (message_taken ∷ events) = drain_signals events
drain_signals (rotator_ended ∷ events) = drain_signals events
drain_signals (resolver_ended ∷ events) = drain_signals events
drain_signals (context_over ∷ events) = context_fired ∷ drain_signals events
drain_signals (shutdown_over ∷ events) = shutdown_closed ∷ drain_signals events
drain_signals (answered e ∷ events) = drain_signals events
drain_signals (changed others ∷ events) = drained others ∷ drain_signals events

-- The second `select` of `Flush`, and what follows; none while it waits.
unfoldable pub flush_sent : List FlushEvent → Budget → Option Waited
unfolding wait_loop drain_signals
flush_sent [] b = none
flush_sent (message_taken ∷ events) b = flush_sent events b
flush_sent (rotator_ended ∷ events) b = flush_sent events b
flush_sent (resolver_ended ∷ events) b = some (record { budget = b; error = some shutdown })
flush_sent (context_over ∷ events) b = some (record { budget = b; error = some context_done })
flush_sent (shutdown_over ∷ events) b = flush_sent events b
flush_sent (answered flush_error ∷ events) b =
    flush_ended flush_error (wait_loop (drain_signals events) b)
flush_sent (changed others ∷ events) b = flush_sent events (others b)

unfoldable pub flush : List FlushEvent → Budget → Option Waited
unfolding flush_sent
flush [] b = none
flush (message_taken ∷ events) b = flush_sent events b
flush (rotator_ended ∷ events) b = some (record { budget = b; error = some shutdown })
flush (resolver_ended ∷ events) b = flush events b
flush (context_over ∷ events) b = some (record { budget = b; error = some context_done })
flush (shutdown_over ∷ events) b = flush events b
flush (answered e ∷ events) b = flush events b
flush (changed others ∷ events) b = flush events (others b)

ensure_drain_of-waits : (ch : Option ℕ) (b b' : Budget) → ensure_drain_of ch b ≢ (b', pass)
ensure_drain_of-waits none b b' h = cc (ap (λ (x : Budget × Turn). x.1) h)
ensure_drain_of-waits (some ch) b b' h = cc (ap (λ (x : Budget × Turn). x.1) h)

wait_drained-pass : (b b' : Budget) → wait_drained b ≡ (b', pass) → b'.batches_used ≡ 0
unfolding wait_drained
wait_drained-pass b b' h = elim (Bool-cases (b.batches_used == 0)) [
  | inl zero_used ↦
      let same = sym (if_then (b.batches_used == 0) zero_used _ _) ∙ h in
      sym (ap (λ (x : Budget × Turn). x.0.batches_used) same) ∙ (==_iff _ _).0 zero_used
  | inr used ↦
      absurd
        (ensure_drain_of-waits b.drain_ch b b' (sym (if_else (b.batches_used == 0) used _ _) ∙ h))
]

looked-drained :
    (b : Budget) (t : Budget × Turn) (later : Option Waited) (w : Waited)
    → wait_drained b ≡ t
    → (later ≡ some w → w.budget.batches_used ≡ 0)
    → looked t later ≡ some w
    → w.budget.batches_used ≡ 0
looked-drained b (b', pass) later w is_t otherwise h =
    sym (ap (λ (x : Waited). x.budget.batches_used) (some-injective _ _ h))
    ∙ wait_drained-pass b b' is_t
looked-drained b (b', wait ch) later w is_t otherwise h = otherwise h

canceled :
    {A : Type 0} (b : Budget) (e : Error) (w : Waited)
    → some (record { budget = b; error = some e }) ≡ some w
    → w.error ≡ none
    → A
canceled b e w h none_there =
    absurd (cc (ap (λ (x : Waited). x.error) (some-injective _ _ h), none_there))

wait_loop-drained :
    (signals : List DrainSignal) (b : Budget) (w : Waited)
    → wait_loop signals b ≡ some w
    → w.error ≡ none
    → w.budget.batches_used ≡ 0
unfolding wait_loop
wait_loop-drained [] b w h e =
    looked-drained b (wait_drained b) none w refl (λ bad. absurd (cc bad)) h
wait_loop-drained (drained others ∷ signals) b w h e =
    looked-drained b (wait_drained b) _ w refl
      (λ later. wait_loop-drained signals (others (wait_drained b).0) w later e) h
wait_loop-drained (context_fired ∷ signals) b w h e =
    looked-drained b (wait_drained b) _ w refl
      (λ later. canceled (wait_drained b).0 context_done w later e) h
wait_loop-drained (shutdown_closed ∷ signals) b w h e =
    looked-drained b (wait_drained b) _ w refl
      (λ later. canceled (wait_drained b).0 shutdown w later e) h

flush_ended-none :
    (flush_error : Option Error) (x : Option Waited) (w : Waited)
    → flush_ended flush_error x ≡ some w
    → w.error ≡ none
    → (w0 : Waited) × (x ≡ some w0)
      × (w0.error ≡ none)
      × (flush_error ≡ none)
      × (w.budget ≡ w0.budget)
flush_ended-none flush_error none w h e = absurd (cc h)
flush_ended-none flush_error (some w0) w h e =
    let same = some-injective _ _ h in
    let (first, second) = neither flush_error w0.error (ap (λ (x : Waited). x.error) same ∙ e) in
    (w0, refl, second, first, sym (ap (λ (x : Waited). x.budget) same))
  where
    neither : (a b : Option Error) → or_flush_error a b ≡ none → (a ≡ none) × (b ≡ none)
    neither a none h' = (h', refl)
    neither a (some y) h' = absurd (cc h')

-- Of what happened, the resolver answered the message without an error; before it, the rotator took it.
abbrev pub Answered : List FlushEvent → Type 0
Answered events = (before after : List FlushEvent) × (events ≡ before ++ (answered none ∷ after))

abbrev pub Acknowledged : List FlushEvent → Type 0
Acknowledged events =
    (before after : List FlushEvent) × (events ≡ before ++ (message_taken ∷ after)) × Answered after

later-Answered :
    (x : FlushEvent) (events : List FlushEvent) → Answered events → Answered (x ∷ events)
later-Answered x events (before, after, e) = (x ∷ before, after, ap (λ l. x ∷ l) e)

later-Acknowledged :
    (x : FlushEvent) (events : List FlushEvent) → Acknowledged events → Acknowledged (x ∷ events)
later-Acknowledged x events (before, after, e, a) = (x ∷ before, after, ap (λ l. x ∷ l) e, a)

-- What a return without an error means.
flush_sent-done :
    (events : List FlushEvent) (b : Budget) (w : Waited)
    → flush_sent events b ≡ some w
    → w.error ≡ none
    → Answered events × (w.budget.batches_used ≡ 0)
unfolding flush_sent
flush_sent-done [] b w h e = absurd (cc h)
flush_sent-done (message_taken ∷ events) b w h e =
    let (a, n) = flush_sent-done events b w h e in (later-Answered _ events a, n)
flush_sent-done (rotator_ended ∷ events) b w h e =
    let (a, n) = flush_sent-done events b w h e in (later-Answered _ events a, n)
flush_sent-done (resolver_ended ∷ events) b w h e = canceled b shutdown w h e
flush_sent-done (context_over ∷ events) b w h e = canceled b context_done w h e
flush_sent-done (shutdown_over ∷ events) b w h e =
    let (a, n) = flush_sent-done events b w h e in (later-Answered _ events a, n)
flush_sent-done (answered flush_error ∷ events) b w h e =
    let (w0, ended, no_error, no_flush_error, same) =
      flush_ended-none flush_error (wait_loop (drain_signals events) b) w h e in
    (
      ([], events, ap (λ x. answered x ∷ events) no_flush_error),
      ap (λ (x : Budget). x.batches_used) same
          ∙ wait_loop-drained (drain_signals events) b w0 ended no_error,
    )
flush_sent-done (changed others ∷ events) b w h e =
    let (a, n) = flush_sent-done events (others b) w h e in (later-Answered _ events a, n)

flush-done :
    (events : List FlushEvent) (b : Budget) (w : Waited)
    → flush events b ≡ some w
    → w.error ≡ none
    → Acknowledged events × (w.budget.batches_used ≡ 0)
unfolding flush
flush-done [] b w h e = absurd (cc h)
flush-done (message_taken ∷ events) b w h e =
    let (a, n) = flush_sent-done events b w h e in (([], events, refl, a), n)
flush-done (rotator_ended ∷ events) b w h e = canceled b shutdown w h e
flush-done (resolver_ended ∷ events) b w h e =
    let (a, n) = flush-done events b w h e in (later-Acknowledged _ events a, n)
flush-done (context_over ∷ events) b w h e = canceled b context_done w h e
flush-done (shutdown_over ∷ events) b w h e =
    let (a, n) = flush-done events b w h e in (later-Acknowledged _ events a, n)
flush-done (answered x ∷ events) b w h e =
    let (a, n) = flush-done events b w h e in (later-Acknowledged _ events a, n)
flush-done (changed others ∷ events) b w h e =
    let (a, n) = flush-done events (others b) w h e in (later-Acknowledged _ events a, n)

-- The wait comes to an end: the context or the shutdown fires, or a wake-up finds no batch in flight.
abbrev pub WaitEnds : List DrainSignal → Type 0
WaitEnds [] = ⊥
WaitEnds (drained others ∷ signals) =
    ((b : Budget) → (others b).batches_used ≡ 0) ⊎ WaitEnds signals
WaitEnds (context_fired ∷ signals) = Unit {0}
WaitEnds (shutdown_closed ∷ signals) = Unit {0}

looked-returns :
    (t : Budget × Turn) (later : Option Waited)
    → ((w : Waited) × (later ≡ some w))
    → (w : Waited) × (looked t later ≡ some w)
looked-returns (b, pass) later r = (_, refl)
looked-returns (b, wait ch) later r = r

wait_drained-none : (b : Budget) → b.batches_used ≡ 0 → wait_drained b ≡ (b, pass)
unfolding wait_drained
wait_drained-none b h = if_then (b.batches_used == 0) ((==_iff _ _).1 h) _ _

looked-pass :
    (b : Budget) (t : Budget × Turn) (later : Option Waited)
    → t ≡ (b, pass)
    → (w : Waited) × (looked t later ≡ some w)
looked-pass b (b', pass) later h = (_, refl)
looked-pass b (b', wait ch) later h = absurd (cc (ap (λ (x : Budget × Turn). x.1) h))

at_once :
    (signals : List DrainSignal) (b : Budget)
    → b.batches_used ≡ 0
    → (w : Waited) × (wait_loop signals b ≡ some w)
unfolding wait_loop
at_once [] b h = looked-pass b (wait_drained b) _ (wait_drained-none b h)
at_once (drained others ∷ signals) b h = looked-pass b (wait_drained b) _ (wait_drained-none b h)
at_once (context_fired ∷ signals) b h = looked-pass b (wait_drained b) _ (wait_drained-none b h)
at_once (shutdown_closed ∷ signals) b h = looked-pass b (wait_drained b) _ (wait_drained-none b h)

wait_loop-returns :
    (signals : List DrainSignal) (b : Budget)
    → WaitEnds signals
    → (w : Waited) × (wait_loop signals b ≡ some w)
unfolding wait_loop
wait_loop-returns [] b h = absurd h
wait_loop-returns (drained others ∷ signals) b (inl empty) =
    looked-returns (wait_drained b) _ (at_once signals (others (wait_drained b).0) (empty _))
wait_loop-returns (drained others ∷ signals) b (inr h) =
    looked-returns (wait_drained b) _ (wait_loop-returns signals (others (wait_drained b).0) h)
wait_loop-returns (context_fired ∷ signals) b h = looked-returns (wait_drained b) _ (_, refl)
wait_loop-returns (shutdown_closed ∷ signals) b h = looked-returns (wait_drained b) _ (_, refl)

-- The context fires at some time.
abbrev pub ContextFires : List FlushEvent → Type 0
ContextFires [] = ⊥
ContextFires (message_taken ∷ events) = ContextFires events
ContextFires (rotator_ended ∷ events) = ContextFires events
ContextFires (resolver_ended ∷ events) = ContextFires events
ContextFires (context_over ∷ events) = Unit {0}
ContextFires (shutdown_over ∷ events) = ContextFires events
ContextFires (answered e ∷ events) = ContextFires events
ContextFires (changed others ∷ events) = ContextFires events

-- The message is taken and answered, and then the shutdown signal is given or a change of the budget
-- leaves no batch in flight.
abbrev pub DrainsOnceAnswered : List FlushEvent → Type 0
DrainsOnceAnswered events =
    (flush_error : Option Error) × (rest : List FlushEvent) × (events
      ≡ message_taken ∷ answered flush_error ∷ rest)
    × WaitEnds (drain_signals rest)

ContextFires-WaitEnds :
    (events : List FlushEvent) → ContextFires events → WaitEnds (drain_signals events)
unfolding drain_signals
ContextFires-WaitEnds [] h = h
ContextFires-WaitEnds (message_taken ∷ events) h = ContextFires-WaitEnds events h
ContextFires-WaitEnds (rotator_ended ∷ events) h = ContextFires-WaitEnds events h
ContextFires-WaitEnds (resolver_ended ∷ events) h = ContextFires-WaitEnds events h
ContextFires-WaitEnds (context_over ∷ events) h = tt
ContextFires-WaitEnds (shutdown_over ∷ events) h = tt
ContextFires-WaitEnds (answered e ∷ events) h = ContextFires-WaitEnds events h
ContextFires-WaitEnds (changed others ∷ events) h = inr (ContextFires-WaitEnds events h)

wait-returns :
    (flush_error : Option Error) (signals : List DrainSignal) (b : Budget)
    → WaitEnds signals
    → (w : Waited) × (flush_ended flush_error (wait_loop signals b) ≡ some w)
wait-returns flush_error signals b h =
    let (w, e) = wait_loop-returns signals b h in (_, ap (flush_ended flush_error) e)

flush_sent-returns :
    (events : List FlushEvent) (b : Budget)
    → ContextFires events
    → (w : Waited) × (flush_sent events b ≡ some w)
unfolding flush_sent
flush_sent-returns [] b h = absurd h
flush_sent-returns (message_taken ∷ events) b h = flush_sent-returns events b h
flush_sent-returns (rotator_ended ∷ events) b h = flush_sent-returns events b h
flush_sent-returns (resolver_ended ∷ events) b h = (_, refl)
flush_sent-returns (context_over ∷ events) b h = (_, refl)
flush_sent-returns (shutdown_over ∷ events) b h = flush_sent-returns events b h
flush_sent-returns (answered e ∷ events) b h =
    wait-returns e (drain_signals events) b (ContextFires-WaitEnds events h)
flush_sent-returns (changed others ∷ events) b h = flush_sent-returns events (others b) h

flush-returns :
    (events : List FlushEvent) (b : Budget)
    → ContextFires events
    → (w : Waited) × (flush events b ≡ some w)
unfolding flush
flush-returns [] b h = absurd h
flush-returns (message_taken ∷ events) b h = flush_sent-returns events b h
flush-returns (rotator_ended ∷ events) b h = (_, refl)
flush-returns (resolver_ended ∷ events) b h = flush-returns events b h
flush-returns (context_over ∷ events) b h = (_, refl)
flush-returns (shutdown_over ∷ events) b h = flush-returns events b h
flush-returns (answered e ∷ events) b h = flush-returns events b h
flush-returns (changed others ∷ events) b h = flush-returns events (others b) h

flush-drains :
    (events : List FlushEvent) (b : Budget)
    → DrainsOnceAnswered events
    → (w : Waited) × (flush events b ≡ some w)
unfolding flush flush_sent
flush-drains events b (flush_error, rest, is_so, ends) =
    let (w, e) = wait-returns flush_error (drain_signals rest) b ends in
    (w, ap (λ l. flush l b) is_so ∙ e)

-- `Flush` returns once the context fires, whichever of its waits it is in by then. It also returns where
-- its message is taken and answered and then, in its last wait, the shutdown signal is given or a
-- wake-up finds no batch in flight. It then returns an error, or its message was taken and afterwards
-- answered without an error, and it returned at a moment when no batch was in flight.
pub flush_lem :
    (events : List FlushEvent) (b : Budget)
    → ContextFires events ⊎ DrainsOnceAnswered events
    → (w : Waited) × (flush events b ≡ some w)
      × ((w.error ≢ none) ⊎ Acknowledged events × (w.budget.batches_used ≡ 0))
flush_lem events b ends =
    let (w, e) = returns ends in (w, e, error_or_done w.error (flush-done events b w e))
  where
    returns :
        ContextFires events ⊎ DrainsOnceAnswered events → (w : Waited) × (flush events b ≡ some w)
    returns (inl h) = flush-returns events b h
    returns (inr h) = flush-drains events b h

    error_or_done : {A : Type 0} (x : Option Error) → (x ≡ none → A) → (x ≢ none) ⊎ A
    error_or_done none done = inr (done refl)
    error_or_done (some y) done = inl (λ bad. cc bad)
