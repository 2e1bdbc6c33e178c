-- ===== src/Producer/Closing.antt =====
-- buffer/producer.go: `Close`. Whether a goroutine exits before the context fires is an argument.
mod Tests
use opendata_go.Base.{
  ◌⊎◌, refl, if_else, ==_iff, ◌∙◌, if_then, ap, sym, Bool, true, false, Option, none, some, List,
  [], ◌∷◌, ◌≡◌, ◌≢◌, Error, shutdown, context_done, Outcome, ok, err, panic, ◌>>=◌, if◌then◌else◌,
  ℕ, ◌==◌, Bool-cases, inl, inr,
}
use mathlib.Core.Option.{some-injective}
use opendata_go.Budget.{ensure_drain_of, Budget, Turn, pass, wait, wait_drained}

pub data PipelineGoroutine : Type 0 where
  rotator encoder_pool uploader_pool committer resolver : PipelineGoroutine

-- `closeOnce`, the channels that were closed, and whether the store calls were canceled.
pub record Closing : Type 0 where
  pub close_once : Bool
  pub append_ch_closed : Bool
  pub shutdown_ch_closed : Bool
  pub shutdown_canceled : Bool

abbrev pub new_closing : Closing
new_closing = record {
  close_once = false;
  append_ch_closed = false;
  shutdown_ch_closed = false;
  shutdown_canceled = false;
}

-- `close(ch)` panics on a closed channel.
abbrev pub close_channel : Bool → Outcome Bool
close_channel true = panic
close_channel false = ok true

abbrev pub close_unless : Bool → Outcome Bool
close_unless true = ok true
close_unless false = close_channel false

abbrev pub abort_with : Outcome Bool → Closing → Outcome (Closing × Option Error)
abort_with closing_it c = do
  closed ← closing_it
  ok (record c { shutdown_ch_closed = closed; shutdown_canceled = true }, some context_done)

abbrev pub abort : Closing → Outcome (Closing × Option Error)
abort c = abort_with (close_unless c.shutdown_ch_closed) c

-- The loop over `dones`: does a goroutine exit before the context fires?
unfoldable pub wait_goroutines :
    List PipelineGoroutine
    → (PipelineGoroutine → Bool)
    → Option Error
    → Closing
    → Outcome (Closing × Option Error)
wait_goroutines [] exits flush_error c = ok (c, flush_error)
wait_goroutines (g ∷ gs) exits flush_error c =
    let rest = wait_goroutines gs exits flush_error c in if exits g then rest else abort c

-- `Close`, on the result of its `Flush`.
unfoldable pub close_producer :
    Option Error → (PipelineGoroutine → Bool) → Closing → Outcome (Closing × Option Error)
unfolding wait_goroutines
close_producer flush_error exits c = if c.close_once then ok (c, none) else (do
  closed ← close_channel c.append_ch_closed
  wait_goroutines (rotator ∷ encoder_pool ∷ uploader_pool ∷ committer ∷ resolver ∷ []) exits
      flush_error (record c { close_once = true; append_ch_closed = closed }))

-- Calls of `Close`, one after the other, with what each returned.
unfoldable pub close_all :
    List (Option Error × (PipelineGoroutine → Bool))
    → Closing
    → Outcome (Closing × List (Option Error))
close_all [] c = ok (c, [])
close_all ((flush_error, exits) ∷ calls) c = do
  (c', error) ← close_producer flush_error exits c
  (c'', errors) ← close_all calls c'
  ok (c'', error ∷ errors)

abbrev pub AllExit : List PipelineGoroutine → (PipelineGoroutine → Bool) → Type 0
AllExit [] exits = Unit {0}
AllExit (g ∷ gs) exits = (exits g ≡ true) × AllExit gs exits

-- What a `Close` that was not the first, or its wait, comes to.
record Ended (gs : List PipelineGoroutine) (exits : PipelineGoroutine → Bool)
    (flush_error : Option Error) (c : Closing) (x : Outcome (Closing × Option Error)) : Type 0 where
  closing : Closing
  error : Option Error
  ended : x ≡ ok (closing, error)
  once_same : closing.close_once ≡ c.close_once
  append_same : closing.append_ch_closed ≡ c.append_ch_closed
  meaning : error ≡ none → (flush_error ≡ none) × AllExit gs exits

abort-Ended :
    (gs : List PipelineGoroutine) (exits : PipelineGoroutine → Bool) (flush_error : Option Error)
    (c : Closing)
    → Ended gs exits flush_error c (abort c)
abort-Ended gs exits flush_error c = record {
  closing = record c { shutdown_ch_closed = true; shutdown_canceled = true };
  error = some context_done;
  ended = closes c.shutdown_ch_closed;
  once_same = refl;
  append_same = refl;
  meaning = λ e. absurd (cc e);
}
  where
    closes :
        (b : Bool)
        → abort_with (close_unless b) c
          ≡ ok (record c { shutdown_ch_closed = true; shutdown_canceled = true }, some context_done)
    closes true = refl
    closes false = refl

wait_goroutines-Ended :
    (gs : List PipelineGoroutine) (exits : PipelineGoroutine → Bool) (flush_error : Option Error)
    (c : Closing)
    → Ended gs exits flush_error c (wait_goroutines gs exits flush_error c)
unfolding wait_goroutines
wait_goroutines-Ended [] exits flush_error c = record {
  closing = c;
  error = flush_error;
  ended = refl;
  once_same = refl;
  append_same = refl;
  meaning = λ e. (e, tt);
}
wait_goroutines-Ended (g ∷ gs) exits flush_error c = elim (Bool-cases (exits g)) [
  | inl gone ↦
      let r = wait_goroutines-Ended gs exits flush_error c in
      record {
        closing = r.closing;
        error = r.error;
        ended = if_then (exits g) gone _ _ ∙ r.ended;
        once_same = r.once_same;
        append_same = r.append_same;
        meaning = λ e. let (flushed, rest) = r.meaning e in (flushed, (gone, rest));
      }
  | inr stuck ↦
      let r = abort-Ended (g ∷ gs) exits flush_error c in
      record {
        closing = r.closing;
        error = r.error;
        ended = if_else (exits g) stuck _ _ ∙ r.ended;
        once_same = r.once_same;
        append_same = r.append_same;
        meaning = r.meaning;
      }
]

abbrev pub no_errors : List (Option Error × (PipelineGoroutine → Bool)) → List (Option Error)
no_errors [] = []
no_errors (call ∷ calls) = none ∷ no_errors calls

closed_already :
    (calls : List (Option Error × (PipelineGoroutine → Bool))) (c : Closing)
    → c.close_once ≡ true
    → close_all calls c ≡ ok (c, no_errors calls)
unfolding close_all close_producer
closed_already [] c once = refl
closed_already ((flush_error, exits) ∷ calls) c once =
    let again : close_producer flush_error exits c ≡ ok (c, none) = if_then c.close_once once _ _ in
    rw (again, closed_already calls c once, close_all)

error_or_not : {A : Type 0} (e : Option Error) → (e ≡ none → A) → (e ≢ none) ⊎ A
error_or_not none meaning = inr (meaning refl)
error_or_not (some x) meaning = inl (λ h. cc h)

-- However often `Close` is called, one call after the other, no channel is closed twice: no call
-- panics. The first call closes the channel of appends, and it returns no error only if its flush had
-- none and every goroutine exited; the later calls return no error and leave the state exactly as the
-- first call left it.
pub close_all_lem :
    (flush_error : Option Error) (exits : PipelineGoroutine → Bool)
    (later : List (Option Error × (PipelineGoroutine → Bool)))
    → (c : Closing) × (error : Option Error) × (close_producer flush_error exits new_closing
        ≡ ok (c, error))
      × (close_all ((flush_error, exits) ∷ later) new_closing ≡ ok (c, error ∷ no_errors later))
      × (c.append_ch_closed ≡ true)
      × ((error ≢ none)
          ⊎ (flush_error ≡ none)
            × AllExit (rotator ∷ encoder_pool ∷ uploader_pool ∷ committer ∷ resolver ∷ []) exits)
unfolding close_all close_producer
close_all_lem flush_error exits later =
    let c0 = record new_closing { close_once = true; append_ch_closed = true } in
    let gs = rotator ∷ encoder_pool ∷ uploader_pool ∷ committer ∷ resolver ∷ [] in
    let r = wait_goroutines-Ended gs exits flush_error c0 in
    (
      r.closing,
      r.error,
      r.ended,
      rw (r.ended, closed_already later r.closing r.once_same),
      r.append_same,
      error_or_not r.error r.meaning,
    )
