-- ===== src/Exporter/Requests.antt =====
-- exporter/opendataexporter/exporter.go and telemetry.go: what the request counters say of the
-- requests.
use opendata_go.Base.{
  if_then, ◌∙◌, sym, subst, Bool, true, Option, none, some, List, [], ◌∷◌, ◌≡◌, ◌+◌, ◌⊎◌, inl, inr,
  Error, ◌==◌, length, ℕ, arith,
}
use opendata_go.Bytes.{Bytes}
use opendata_go.Exporter.Settings.{ObjectStoreConfig}
use opendata_go.Exporter.Telemetry.{
  Stage, record_request_start_metrics, record_marshal, record_enqueue_wait, record_durable_wait,
  record_failure,
}
use opendata_go.Exporter.Kept.{consume_metrics-Kept}
use opendata_go.Exporter.{
  start_stage, marshal_stage, enqueue_stage, marshal_failed, producer_failed, not_started,
  durable_wait_stage, Exporter, ExporterError, ProducerApi, Called, Durations, recorded, awaited,
  appended, append_to, append_and_await, consume_marshalled, consume_metrics, signal_type_metrics,
}
use opendata_go.Exporter.Counters.{
  Counted, total, request_count, failure_count, success_count, total-append, one_failure,
  one_success, Counted-behind, Counted-then, unchanged, record_failure-Sums,
  record_enqueue_wait-Sums, record_marshal-Sums, record_request_start_metrics-Sums,
  record_durable_wait-Sums, one_success_or_failure,
}

failed_call :
    {Q P W : Type 0} (e : Exporter Q P) (w : W) (x : ExporterError) (stage : Stage)
    → Counted e.recordings 0 1 0
        (record { exporter = recorded (record_failure stage) e; world = w; error = some x })
failed_call e w x stage =
    let sums = record_failure-Sums stage in
    record {
      requests_are = omega (
        arith,
        total-append request_count e.recordings (record_failure stage),
        sums.requests_sum,
      );
      failures_are = omega (
        arith,
        total-append failure_count e.recordings (record_failure stage),
        sums.failures_sum,
      );
      successes_are = omega (
        arith,
        total-append success_count e.recordings (record_failure stage),
        sums.successes_sum,
      );
    }

-- How many of the errors are none, and how many are errors.
unfoldable pub succeeded : List (Option ExporterError) → ℕ
succeeded [] = 0
succeeded (x ∷ xs) = one_success x + succeeded xs

unfoldable pub failed : List (Option ExporterError) → ℕ
failed [] = 0
failed (x ∷ xs) = one_failure x + failed xs

module _ {Q P H W Store : Type 0} (queue_fails : Q → Bool) (api : ProducerApi P H W Store)
    (store_factory : ObjectStoreConfig → W → W × (Error ⊎ Store)) where
  awaited-Counted :
      (x : W × Option Error) (e : Exporter Q P)
      → Counted e.recordings 0
          (one_failure (awaited queue_fails api store_factory x e).error)
          0
          (awaited queue_fails api store_factory x e)
  unfolding awaited
  awaited-Counted (w, none) e = unchanged e w none
  awaited-Counted (w, some x) e = failed_call e w (producer_failed x) durable_wait_stage

  appended-Counted :
      (x : W × (Error ⊎ H)) (e : Exporter Q P)
      → Counted e.recordings 0
          (one_failure (appended queue_fails api store_factory x e).error)
          0
          (appended queue_fails api store_factory x e)
  unfolding appended
  appended-Counted (w, inl x) e = failed_call e w (producer_failed x) enqueue_stage
  appended-Counted (w, inr watcher) e = awaited-Counted (api.await_durable watcher w) e

  append_to-Counted :
      (p : Option P) (payload : Bytes) (took : Durations) (e : Exporter Q P) (w : W)
      → Counted e.recordings 0
          (one_failure (append_to queue_fails api store_factory p payload took e w).error)
          0
          (append_to queue_fails api store_factory p payload took e w)
  unfolding append_to
  append_to-Counted none payload took e w = failed_call e w not_started start_stage
  append_to-Counted (some p) payload took e w =
      Counted-behind e.recordings (record_enqueue_wait took.enqueue) 0 0 _ 0 _
        (record_enqueue_wait-Sums took.enqueue)
        (appended-Counted (api.append p (payload ∷ []) e.metadata w)
          (recorded (record_enqueue_wait took.enqueue) e))

  consume_marshalled-Counted :
      (x : Option Bytes) (took : Durations) (e : Exporter Q P) (w : W)
      → Counted e.recordings 0
          (one_failure (consume_marshalled queue_fails api store_factory x took e w).error)
          (one_success (consume_marshalled queue_fails api store_factory x took e w).error)
          (consume_marshalled queue_fails api store_factory x took e w)
  unfolding consume_marshalled append_and_await
  consume_marshalled-Counted none took e w = failed_call e w marshal_failed marshal_stage
  consume_marshalled-Counted (some payload) took e w =
      let e' = recorded (record_marshal (length payload) took.marshal) e in
      let c = append_to queue_fails api store_factory e.producer payload took e' w in
      Counted-then e.recordings
        (record_durable_wait e.slow_request_threshold took.durable_wait c.error) 0 _ _ c
        (Counted-behind e.recordings (record_marshal (length payload) took.marshal) 0 0 _ 0 c
          (record_marshal-Sums (length payload) took.marshal)
          (append_to-Counted e.producer payload took e' w))
        (record_durable_wait-Sums e.slow_request_threshold took.durable_wait c.error)

  module _ {M : Type 0} (marshal_metrics : M → Option Bytes)
      (metric_count data_point_count : M → ℕ) where
    own_signal : {n : ℕ} → n ≡ signal_type_metrics → (n == signal_type_metrics) ≡ true
    own_signal e = rw e

    consume_metrics-Counted :
        (md : M) (took : Durations) (e : Exporter Q P) (w : W)
        → e.signal_type ≡ signal_type_metrics
        → (c : Called Q P W) × (consume_metrics queue_fails api store_factory marshal_metrics
              metric_count data_point_count md took e w
            ≡ c)
          × Counted e.recordings 1 (one_failure c.error) (one_success c.error) c
    unfolding consume_metrics
    consume_metrics-Counted md took e w metrics =
        let started = record_request_start_metrics (metric_count md) (data_point_count md) in
        let c =
          consume_marshalled queue_fails api store_factory (marshal_metrics md) took
            (recorded started e) w in
        (
          c,
          if_then _ (own_signal metrics) _ _,
          Counted-behind e.recordings started 1 0 (one_failure c.error) (one_success c.error) c
              (record_request_start_metrics-Sums (metric_count md) (data_point_count md))
              (consume_marshalled-Counted (marshal_metrics md) took (recorded started e) w),
        )

    -- The requests of a run, one after the other, with the errors that they returned.
    unfoldable pub consume_all :
        List (M × Durations) → Exporter Q P → W → Exporter Q P × W × List (Option ExporterError)
    consume_all [] e w = (e, w, [])
    consume_all ((md, took) ∷ calls) e w =
        let c =
          consume_metrics queue_fails api store_factory marshal_metrics metric_count
            data_point_count md took e w in
        let (e', w', errors) = consume_all calls c.exporter c.world in (e', w', c.error ∷ errors)

    -- After any requests to an exporter of metrics, whatever the producer answers and whether or not
    -- there is one, the counter of requests has grown by their number, that of failures by the number
    -- of them that returned an error, and the samples of the wait labelled a success by the number of
    -- the others.
    pub consume_all-Counted :
        (calls : List (M × Durations)) (e : Exporter Q P) (w : W)
        → e.signal_type ≡ signal_type_metrics
        → (total request_count (consume_all calls e w).0.recordings
            ≡ total request_count e.recordings + length calls)
          × (total failure_count (consume_all calls e w).0.recordings
              ≡ total failure_count e.recordings + failed (consume_all calls e w).2)
          × (total success_count (consume_all calls e w).0.recordings
              ≡ total success_count e.recordings + succeeded (consume_all calls e w).2)
          × (succeeded (consume_all calls e w).2 + failed (consume_all calls e w).2 ≡ length calls)
    unfolding consume_all succeeded failed
    consume_all-Counted [] e w metrics = (omega arith, omega arith, omega arith, omega arith)
    consume_all-Counted ((md, took) ∷ calls) e w metrics =
        let c =
          consume_metrics queue_fails api store_factory marshal_metrics metric_count
            data_point_count md took e w in
        let (c', same_call, n0) = consume_metrics-Counted md took e w metrics in
        let n =
          subst (λ x. Counted e.recordings 1 (one_failure x.error) (one_success x.error) x)
            (sym same_call) n0 in
        let kept =
          consume_metrics-Kept queue_fails api store_factory marshal_metrics metric_count
            data_point_count md took e w in
        let (r, f, s, all) =
          consume_all-Counted calls c.exporter c.world (kept.signal_same ∙ metrics) in
        (
          omega (arith, r, n.requests_are),
          omega (arith, f, n.failures_are),
          omega (arith, s, n.successes_are),
          omega (arith, all, one_success_or_failure c.error),
        )
