-- ===== src/Exporter/Kept.antt =====
-- exporter/opendataexporter/exporter.go: what a request does not change.
use opendata_go.Base.{
  if_else, if_then, sym, subst, refl, Bool, Option, none, some, List, [], ◌∷◌, ◌≡◌, ◌⊎◌, inl, inr,
  Error, ◌==◌, length, ℕ, Bool-cases,
}
use opendata_go.Bytes.{Bytes, ℤ}
use opendata_go.Exporter.Settings.{ObjectStoreConfig}
use opendata_go.Exporter.Telemetry.{
  Recording, record_request_start_metrics, record_request_start_logs, record_marshal,
  record_enqueue_wait,
}
use opendata_go.Exporter.{
  signal_type_logs, signal_type_metrics, Exporter, ProducerApi, Called, Durations, recorded,
  awaited, appended, append_to, append_and_await, consume_marshalled, consume_metrics, consume_logs,
  stamp_gateway_received_at,
}

-- All but the recordings.
pub record Kept {Q P : Type 0} (e e' : Exporter Q P) : Type 0 where
  pub config_same : e'.config ≡ e.config
  pub signal_same : e'.signal_type ≡ e.signal_type
  pub metadata_same : e'.metadata ≡ e.metadata
  pub producer_same : e'.producer ≡ e.producer
  pub gauge_same : e'.gauge_producer ≡ e.gauge_producer

Kept-recorded :
    {Q P : Type 0} (e e' : Exporter Q P) (rs : List Recording) → Kept e e' → Kept e (recorded rs e')
Kept-recorded e e' rs k = record {
  config_same = k.config_same;
  signal_same = k.signal_same;
  metadata_same = k.metadata_same;
  producer_same = k.producer_same;
  gauge_same = k.gauge_same;
}

Kept-behind :
    {Q P : Type 0} (e e' : Exporter Q P) (rs : List Recording) → Kept (recorded rs e) e' → Kept e e'
Kept-behind e e' rs k = record {
  config_same = k.config_same;
  signal_same = k.signal_same;
  metadata_same = k.metadata_same;
  producer_same = k.producer_same;
  gauge_same = k.gauge_same;
}

itself : {Q P : Type 0} (e : Exporter Q P) → Kept e e
itself e = record {
  config_same = refl;
  signal_same = refl;
  metadata_same = refl;
  producer_same = refl;
  gauge_same = refl;
}

module _ {Q P H W Store : Type 0} (queue_fails : Q → Bool) (api : ProducerApi P H W Store)
    (store_factory : ObjectStoreConfig → W → W × (Error ⊎ Store)) where
  awaited-Kept :
      (x : W × Option Error) (e : Exporter Q P)
      → Kept e (awaited queue_fails api store_factory x e).exporter
  unfolding awaited
  awaited-Kept (w, none) e = itself e
  awaited-Kept (w, some x) e = Kept-recorded e e _ (itself e)

  appended-Kept :
      (x : W × (Error ⊎ H)) (e : Exporter Q P)
      → Kept e (appended queue_fails api store_factory x e).exporter
  unfolding appended
  appended-Kept (w, inl x) e = Kept-recorded e e _ (itself e)
  appended-Kept (w, inr watcher) e = awaited-Kept (api.await_durable watcher w) e

  append_to-Kept :
      (p : Option P) (payload : Bytes) (took : Durations) (e : Exporter Q P) (w : W)
      → Kept e (append_to queue_fails api store_factory p payload took e w).exporter
  unfolding append_to
  append_to-Kept none payload took e w = Kept-recorded e e _ (itself e)
  append_to-Kept (some p) payload took e w =
      let wait = record_enqueue_wait took.enqueue in
      Kept-behind e _ wait
        (appended-Kept (api.append p (payload ∷ []) e.metadata w) (recorded wait e))

  pub consume_marshalled-Kept :
      (x : Option Bytes) (took : Durations) (e : Exporter Q P) (w : W)
      → Kept e (consume_marshalled queue_fails api store_factory x took e w).exporter
  unfolding consume_marshalled append_and_await
  consume_marshalled-Kept none took e w = Kept-recorded e e _ (itself e)
  consume_marshalled-Kept (some payload) took e w =
      let size = record_marshal (length payload) took.marshal in
      Kept-recorded e _ _
        (Kept-behind e _ size (append_to-Kept e.producer payload took (recorded size e) w))

  pub consume_metrics-Kept :
      {M : Type 0} (marshal_metrics : M → Option Bytes) (metric_count data_point_count : M → ℕ)
      (md : M) (took : Durations) (e : Exporter Q P) (w : W)
      → Kept e
          (consume_metrics queue_fails api store_factory marshal_metrics metric_count
            data_point_count md took e w).exporter
  unfolding consume_metrics
  consume_metrics-Kept marshal_metrics metric_count data_point_count md took e w =
      let started = record_request_start_metrics (metric_count md) (data_point_count md) in
      elim (Bool-cases (e.signal_type == signal_type_metrics)) [
        | inl own ↦
            subst (λ (c : Called Q P W). Kept e c.exporter) (sym (if_then _ own _ _))
              (Kept-behind e _ started
                (consume_marshalled-Kept (marshal_metrics md) took (recorded started e) w))
        | inr other ↦
            subst (λ (c : Called Q P W). Kept e c.exporter) (sym (if_else _ other _ _)) (itself e)
      ]

  pub consume_logs-Kept :
      {R : Type 0} (put_int : Bytes → ℤ → R → R) (marshal_logs : List R → Option Bytes)
      (log_record_count : List R → ℕ) (ld : List R) (now : ℤ) (took : Durations) (e : Exporter Q P)
      (w : W)
      → Kept e
          (consume_logs queue_fails api store_factory put_int marshal_logs log_record_count ld now
            took e w).exporter
  unfolding consume_logs
  consume_logs-Kept put_int marshal_logs log_record_count ld now took e w =
      let stamped =
        stamp_gateway_received_at queue_fails api store_factory put_int marshal_logs
          log_record_count now ld in
      let started = record_request_start_logs (log_record_count stamped) in
      elim (Bool-cases (e.signal_type == signal_type_logs)) [
        | inl own ↦
            subst (λ (c : Called Q P W). Kept e c.exporter) (sym (if_then _ own _ _))
              (Kept-behind e _ started
                (consume_marshalled-Kept (marshal_logs stamped) took (recorded started e) w))
        | inr other ↦
            subst (λ (c : Called Q P W). Kept e c.exporter) (sym (if_else _ other _ _)) (itself e)
      ]
