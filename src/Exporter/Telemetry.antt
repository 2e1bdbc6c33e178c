-- ===== src/Exporter/Telemetry.antt =====
-- exporter/opendataexporter/telemetry.go: what each hook records. The instruments and the logger are
-- the OpenTelemetry SDK's and zap's: a hook is modelled by the list of its calls of them. Durations
-- are in nanoseconds, where the source hands over seconds as floats.
use opendata_go.Base.{
  Bool, true, false, Option, none, some, List, [], ◌∷◌, ◌++◌, ◌+◌, ◌*◌, ◌-◌, ◌^◌, ◌||◌, ltb, leb,
  if◌then◌else◌, Error, ℕ,
}
use opendata_go.Bytes.{ℤ, pos, negsuc, u64}
use opendata_go.Committer.{BatchOutcome}
use opendata_go.Producer.Rotator.{FlushReason, FlushStats}

-- The `stage` of a failed request.
pub data Stage : Type 0 where
  start_stage marshal_stage enqueue_stage durable_wait_stage : Stage

-- buffer/observer.go.
pub data PipelineStage : Type 0 where
  stage_append stage_rotate stage_encode stage_upload stage_commit stage_resolve : PipelineStage

pub data ResultAttr : Type 0 where
  success failure : ResultAttr

abbrev pub result_attr : {E : Type 0} → Option E → ResultAttr
result_attr none = success
result_attr (some e) = failure

pub data Recording : Type 0 where
  requests_total bytes_marshaled_total metrics_received_total : ℕ → Recording
  data_points_received_total log_records_received_total : ℕ → Recording
  request_failures_total : Stage → ℕ → Recording
  marshal_duration enqueue_wait_duration : ℕ → Recording
  durable_wait_duration : ResultAttr → ℕ → Recording
  pending_inputs_up pending_inputs_down : ℕ → Recording
  flushes_total flush_duration : FlushReason → ResultAttr → ℕ → Recording
  batch_inputs batch_entries : FlushReason → ResultAttr → ℕ → Recording
  batch_uncompressed_bytes batch_age : FlushReason → ResultAttr → ℕ → Recording
  store_put_duration store_payload_bytes : ResultAttr → ℕ → Recording
  manifest_enqueue_duration manifest_conflicts_per_write : ResultAttr → ℕ → Recording
  manifest_conflicts_total append_ch_block_duration : ℕ → Recording
  encode_workers_busy upload_workers_busy : ℕ → Recording
  encode_duration upload_duration : ResultAttr → ℕ → Recording
  manifest_append_batch_size : ℕ → Recording
  manifest_append_duration manifest_append_cas_retries : ResultAttr → ℕ → Recording
  head_of_line_block_duration : ℕ → Recording
  batch_outcome_total : BatchOutcome → ℕ → Recording
  halted_gauge inflight_bytes_gauge inflight_batches_gauge : ℕ → Recording
  queue_depth_gauge : PipelineStage → ℕ → Recording
  slow_request slow_flush repeated_conflicts : Recording
  request_failed flush_failed manifest_update_failed : Recording

-- `2 * cfg.FlushInterval` as an int64, by its two's complement; negative from 2 ^ 63 on.
abbrev pub doubled : ℤ → ℕ
doubled (pos n) = u64 (2 * n)
doubled (negsuc n) = u64 (2 ^ 64 - u64 (2 * (n + 1)))

-- The threshold of a slow request and of a slow flush: at least 5 s.
unfoldable pub slow_threshold : ℤ → ℕ
slow_threshold flush_interval =
    let d = doubled flush_interval in if ltb d 5000000000 || leb (2 ^ 63) d then 5000000000 else d

unfoldable pub record_request_start_metrics : ℕ → ℕ → List Recording
record_request_start_metrics metric_count data_point_count =
    requests_total 1
    ∷ metrics_received_total metric_count
    ∷ data_points_received_total data_point_count
    ∷ []

unfoldable pub record_request_start_logs : ℕ → List Recording
record_request_start_logs log_record_count =
    requests_total 1 ∷ log_records_received_total log_record_count ∷ []

unfoldable pub record_marshal : ℕ → ℕ → List Recording
record_marshal size_bytes duration =
    bytes_marshaled_total size_bytes ∷ marshal_duration duration ∷ []

unfoldable pub record_enqueue_wait : ℕ → List Recording
record_enqueue_wait duration = enqueue_wait_duration duration ∷ []

-- `recordDurableWaitMetrics` and `recordDurableWaitLogs`, which differ in the fields of the warning.
unfoldable pub record_durable_wait : {E : Type 0} → ℕ → ℕ → Option E → List Recording
record_durable_wait threshold duration (some e) = durable_wait_duration failure duration ∷ []
record_durable_wait threshold duration none =
    durable_wait_duration success duration
    ∷ (if leb threshold duration then slow_request ∷ [] else [])

unfoldable pub record_failure : Stage → List Recording
record_failure stage = request_failures_total stage 1 ∷ request_failed ∷ []

-- buffer/observer.go: the hooks of `Observer`, with their arguments.
pub data ObserverCall : Type 0 where
  on_accepted : ObserverCall
  on_flush : FlushReason → FlushStats → ℕ → ℕ → Option Error → ObserverCall
  on_store_put : ℕ → ℕ → Option Error → ObserverCall
  on_manifest_enqueue : ℕ → ℕ → ℕ → Option Error → ObserverCall
  on_append_ch_block : ℕ → ObserverCall
  on_workers_busy : PipelineStage → ℕ → ObserverCall
  on_encode_duration : ℕ → Option Error → ObserverCall
  on_upload_duration : ℕ → ℕ → Option Error → ObserverCall
  on_manifest_append_batch_size : ℕ → ObserverCall
  on_manifest_append_duration : ℕ → ℕ → Option Error → ObserverCall
  on_head_of_line_block : ℕ → ObserverCall
  on_batch_outcome : BatchOutcome → ObserverCall
  on_halted : Bool → ObserverCall
  on_inflight_bytes : ℕ → ObserverCall
  on_inflight_batches : ℕ → ObserverCall
  on_queue_depth : PipelineStage → ℕ → ObserverCall

unfoldable pub flush_end : ℕ → ℕ → Option Error → List Recording
flush_end threshold duration (some e) = flush_failed ∷ []
flush_end threshold duration none = if leb threshold duration then slow_flush ∷ [] else []

abbrev pub if_error : Option Error → Recording → List Recording
if_error none r = []
if_error (some e) r = r ∷ []

abbrev pub workers_busy : PipelineStage → ℕ → List Recording
workers_busy stage_append busy = []
workers_busy stage_rotate busy = []
workers_busy stage_encode busy = encode_workers_busy busy ∷ []
workers_busy stage_upload busy = upload_workers_busy busy ∷ []
workers_busy stage_commit busy = []
workers_busy stage_resolve busy = []

-- The hooks. The fourth argument of `on_flush` is the batch's age.
unfoldable pub observe : ℕ → ObserverCall → List Recording
unfolding flush_end
observe threshold on_accepted = pending_inputs_up 1 ∷ []
observe threshold (on_flush reason stats duration age error) =
    pending_inputs_down stats.inputs
    ∷ flushes_total reason (result_attr error) 1
    ∷ flush_duration reason (result_attr error) duration
    ∷ batch_inputs reason (result_attr error) stats.inputs
    ∷ batch_entries reason (result_attr error) stats.entries
    ∷ batch_uncompressed_bytes reason (result_attr error) stats.uncompressed_bytes
    ∷ batch_age reason (result_attr error) age
    ∷ flush_end threshold duration error
observe threshold (on_store_put size_bytes duration error) =
    store_put_duration (result_attr error) duration
    ∷ store_payload_bytes (result_attr error) size_bytes
    ∷ []
observe threshold (on_manifest_enqueue entries duration conflicts error) =
    manifest_enqueue_duration (result_attr error) duration
    ∷ manifest_conflicts_per_write (result_attr error) conflicts
    ∷ ((if ltb 0 conflicts then manifest_conflicts_total conflicts ∷ [] else [])
        ++ ((if leb 3 conflicts then repeated_conflicts ∷ [] else [])
            ++ if_error error manifest_update_failed))
observe threshold (on_append_ch_block duration) = append_ch_block_duration duration ∷ []
observe threshold (on_workers_busy stage busy) = workers_busy stage busy
observe threshold (on_encode_duration duration error) =
    encode_duration (result_attr error) duration ∷ []
observe threshold (on_upload_duration duration size_bytes error) =
    upload_duration (result_attr error) duration ∷ []
observe threshold (on_manifest_append_batch_size n) = manifest_append_batch_size n ∷ []
observe threshold (on_manifest_append_duration duration conflicts error) =
    manifest_append_duration (result_attr error) duration
    ∷ manifest_append_cas_retries (result_attr error) conflicts
    ∷ []
observe threshold (on_head_of_line_block duration) = head_of_line_block_duration duration ∷ []
observe threshold (on_batch_outcome outcome) = batch_outcome_total outcome 1 ∷ []
observe threshold (on_halted true) = halted_gauge 1 ∷ []
observe threshold (on_halted false) = halted_gauge 0 ∷ []
observe threshold (on_inflight_bytes n) = inflight_bytes_gauge n ∷ []
observe threshold (on_inflight_batches n) = inflight_batches_gauge n ∷ []
observe threshold (on_queue_depth stage depth) = queue_depth_gauge stage depth ∷ []

unfoldable pub observe_all : ℕ → List ObserverCall → List Recording
unfolding observe
observe_all threshold [] = []
observe_all threshold (c ∷ cs) = observe threshold c ++ observe_all threshold cs
