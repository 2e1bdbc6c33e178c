-- ===== src/Exporter/Pending.antt =====
-- exporter/opendataexporter/telemetry.go: what the counters fed by the producer's hooks add up to.
use opendata_go.Base.{
  if◌then◌else◌, refl, ◌∙◌, Bool, true, false, Option, none, some, List, [], ◌∷◌, ◌++◌, ◌≡◌, ◌+◌,
  inl, inr, Error, ltb, leb, ℕ, arith, Bool-cases,
}
use opendata_go.Exporter.Telemetry.{
  on_accepted, stage_append, stage_rotate, stage_encode, stage_upload, stage_commit, stage_resolve,
  on_queue_depth, on_inflight_batches, on_inflight_bytes, on_halted, on_head_of_line_block,
  on_manifest_append_duration, on_manifest_append_batch_size, on_upload_duration,
  on_encode_duration, on_workers_busy, on_append_ch_block, repeated_conflicts,
  manifest_update_failed, on_store_put, on_manifest_enqueue, on_batch_outcome, on_flush, Recording,
  pending_inputs_up, pending_inputs_down, manifest_conflicts_total, batch_outcome_total,
  ObserverCall, observe, observe_all, flush_end, if_error,
}
use opendata_go.Exporter.Counters.{total, total-append}

-- A value of a call, summed over calls.
unfoldable pub call_total : (ObserverCall → ℕ) → List ObserverCall → ℕ
call_total value [] = 0
call_total value (c ∷ cs) = value c + call_total value cs

-- A counter that takes from each call what `wanted` says of it takes their sum from all of them.
observe_all-total :
    (threshold : ℕ) (value : Recording → ℕ) (wanted : ObserverCall → ℕ) (calls : List ObserverCall)
    → ((c : ObserverCall) → total value (observe threshold c) ≡ wanted c)
    → total value (observe_all threshold calls) ≡ call_total wanted calls
unfolding observe_all call_total total
observe_all-total threshold value wanted [] each = refl
observe_all-total threshold value wanted (c ∷ calls) each =
    total-append value (observe threshold c) (observe_all threshold calls)
    ∙ omega (arith, each c, observe_all-total threshold value wanted calls each)

abbrev pub up : Recording → ℕ
up (pending_inputs_up n) = n
up r = 0

abbrev pub down : Recording → ℕ
down (pending_inputs_down n) = n
down r = 0

abbrev pub conflicts_total : Recording → ℕ
conflicts_total (manifest_conflicts_total n) = n
conflicts_total r = 0

abbrev pub outcomes_total : Recording → ℕ
outcomes_total (batch_outcome_total o n) = n
outcomes_total r = 0

abbrev pub accepted_inputs : ObserverCall → ℕ
accepted_inputs on_accepted = 1
accepted_inputs c = 0

abbrev pub flushed_inputs : ObserverCall → ℕ
flushed_inputs (on_flush reason stats duration age error) = stats.inputs
flushed_inputs c = 0

abbrev pub conflicts_of : ObserverCall → ℕ
conflicts_of (on_manifest_enqueue entries duration conflicts error) = conflicts
conflicts_of c = 0

abbrev pub outcome_of : ObserverCall → ℕ
outcome_of (on_batch_outcome outcome) = 1
outcome_of c = 0

-- What one call adds to each of the counters.
abbrev OneCall : List Recording → ObserverCall → Type 0
OneCall rs c =
    (total up rs ≡ accepted_inputs c)
    × (total down rs ≡ flushed_inputs c)
    × (total conflicts_total rs ≡ conflicts_of c)
    × (total outcomes_total rs ≡ outcome_of c)

abbrev NoCount : List Recording → Type 0
NoCount rs =
    (total up rs ≡ 0)
    × (total down rs ≡ 0)
    × (total conflicts_total rs ≡ 0)
    × (total outcomes_total rs ≡ 0)

flush_end-NoCount :
    (threshold duration : ℕ) (error : Option Error) → NoCount (flush_end threshold duration error)
unfolding flush_end total
flush_end-NoCount threshold duration (some e) = (omega arith, omega arith, omega arith, omega arith)
flush_end-NoCount threshold duration none = elim (Bool-cases (leb threshold duration)) [
  | inl slow ↦ rw slow (omega arith, omega arith, omega arith, omega arith)
  | inr quick ↦ rw quick (omega arith, omega arith, omega arith, omega arith)
]

if_error-NoCount : (error : Option Error) → NoCount (if_error error manifest_update_failed)
unfolding total
if_error-NoCount none = (omega arith, omega arith, omega arith, omega arith)
if_error-NoCount (some e) = (omega arith, omega arith, omega arith, omega arith)

warned-NoCount : (b : Bool) → NoCount (if b then repeated_conflicts ∷ [] else [])
unfolding total
warned-NoCount true = (omega arith, omega arith, omega arith, omega arith)
warned-NoCount false = (omega arith, omega arith, omega arith, omega arith)

abbrev conflict_recordings : ℕ → List Recording
conflict_recordings conflicts =
    if ltb 0 conflicts then manifest_conflicts_total conflicts ∷ [] else []

conflict_recordings-total :
    (conflicts : ℕ)
    → (total up (conflict_recordings conflicts) ≡ 0)
      × (total down (conflict_recordings conflicts) ≡ 0)
      × (total conflicts_total (conflict_recordings conflicts) ≡ conflicts)
      × (total outcomes_total (conflict_recordings conflicts) ≡ 0)
unfolding total
conflict_recordings-total conflicts = elim (Bool-cases (ltb 0 conflicts)) [
  | inl any ↦ rw any (omega arith, omega arith, omega arith, omega arith)
  | inr none_at_all ↦
      let zero_conflicts : conflicts ≡ 0 = ground (arith, none_at_all) in
      rw none_at_all (omega arith, omega arith, omega (arith, zero_conflicts), omega arith)
]

observe-OneCall : (threshold : ℕ) (c : ObserverCall) → OneCall (observe threshold c) c
unfolding observe total
observe-OneCall threshold on_accepted = (omega arith, omega arith, omega arith, omega arith)
observe-OneCall threshold (on_flush reason stats duration age error) =
    let (u, d, c, o) = flush_end-NoCount threshold duration error in
    (omega (arith, u), omega (arith, d), omega (arith, c), omega (arith, o))
observe-OneCall threshold (on_store_put size_bytes duration error) =
    (omega arith, omega arith, omega arith, omega arith)
observe-OneCall threshold (on_manifest_enqueue entries duration conflicts error) =
    let (u, d, c, o) = conflict_recordings-total conflicts in
    let (u', d', c', o') = warned-NoCount (leb 3 conflicts) in
    let (u2, d2, c2, o2) = if_error-NoCount error in
    let first = conflict_recordings conflicts in
    let second : List Recording = if leb 3 conflicts then repeated_conflicts ∷ [] else [] in
    let third = if_error error manifest_update_failed in
    (
      omega
          (arith, u, u', u2, total-append up first (second ++ third), total-append up second third),
      omega (
        arith,
        d,
        d',
        d2,
        total-append down first (second ++ third),
        total-append down second third,
      ),
      omega (
        arith,
        c,
        c',
        c2,
        total-append conflicts_total first (second ++ third),
        total-append conflicts_total second third,
      ),
      omega (
        arith,
        o,
        o',
        o2,
        total-append outcomes_total first (second ++ third),
        total-append outcomes_total second third,
      ),
    )
observe-OneCall threshold (on_append_ch_block duration) =
    (omega arith, omega arith, omega arith, omega arith)
observe-OneCall threshold (on_workers_busy stage_append busy) =
    (omega arith, omega arith, omega arith, omega arith)
observe-OneCall threshold (on_workers_busy stage_rotate busy) =
    (omega arith, omega arith, omega arith, omega arith)
observe-OneCall threshold (on_workers_busy stage_encode busy) =
    (omega arith, omega arith, omega arith, omega arith)
observe-OneCall threshold (on_workers_busy stage_upload busy) =
    (omega arith, omega arith, omega arith, omega arith)
observe-OneCall threshold (on_workers_busy stage_commit busy) =
    (omega arith, omega arith, omega arith, omega arith)
observe-OneCall threshold (on_workers_busy stage_resolve busy) =
    (omega arith, omega arith, omega arith, omega arith)
observe-OneCall threshold (on_encode_duration duration error) =
    (omega arith, omega arith, omega arith, omega arith)
observe-OneCall threshold (on_upload_duration duration size_bytes error) =
    (omega arith, omega arith, omega arith, omega arith)
observe-OneCall threshold (on_manifest_append_batch_size n) =
    (omega arith, omega arith, omega arith, omega arith)
observe-OneCall threshold (on_manifest_append_duration duration conflicts error) =
    (omega arith, omega arith, omega arith, omega arith)
observe-OneCall threshold (on_head_of_line_block duration) =
    (omega arith, omega arith, omega arith, omega arith)
observe-OneCall threshold (on_batch_outcome outcome) =
    (omega arith, omega arith, omega arith, omega arith)
observe-OneCall threshold (on_halted true) = (omega arith, omega arith, omega arith, omega arith)
observe-OneCall threshold (on_halted false) = (omega arith, omega arith, omega arith, omega arith)
observe-OneCall threshold (on_inflight_bytes n) =
    (omega arith, omega arith, omega arith, omega arith)
observe-OneCall threshold (on_inflight_batches n) =
    (omega arith, omega arith, omega arith, omega arith)
observe-OneCall threshold (on_queue_depth stage depth) =
    (omega arith, omega arith, omega arith, omega arith)

-- After any calls of the hooks, the counter of pending inputs has gone up by the number of inputs
-- accepted and down by the inputs of the flushed batches, that of conflicts holds all conflicts of the
-- manifest's writes, and that of outcomes has one for each batch with an outcome.
pub observe_all_lem :
    (threshold : ℕ) (calls : List ObserverCall)
    → (total up (observe_all threshold calls) ≡ call_total accepted_inputs calls)
      × (total down (observe_all threshold calls) ≡ call_total flushed_inputs calls)
      × (total conflicts_total (observe_all threshold calls) ≡ call_total conflicts_of calls)
      × (total outcomes_total (observe_all threshold calls) ≡ call_total outcome_of calls)
observe_all_lem threshold calls = (
  observe_all-total threshold up accepted_inputs calls (λ c. (observe-OneCall threshold c).0),
  observe_all-total threshold down flushed_inputs calls (λ c. (observe-OneCall threshold c).1),
  observe_all-total threshold conflicts_total conflicts_of calls
      (λ c. (observe-OneCall threshold c).2),
  observe_all-total threshold outcomes_total outcome_of calls
      (λ c. (observe-OneCall threshold c).3),
)
