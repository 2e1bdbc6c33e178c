-- ===== src/Exporter/Answers.antt =====
-- exporter/opendataexporter/exporter.go: what a request that is reported as exported has behind it.
use opendata_go.Base.{
  if_else, if_then, ==_iff, ◌∙◌, sym, ap, refl, Bool-cases, Bool, Option, none, some, [], ◌∷◌, ◌≡◌,
  ◌⊎◌, inl, inr, Error, ◌==◌, length, ℕ,
}
use opendata_go.Bytes.{Bytes}
use opendata_go.Exporter.Settings.{ObjectStoreConfig}
use opendata_go.Exporter.Telemetry.{
  record_request_start_metrics, record_marshal, record_enqueue_wait,
}
use opendata_go.Exporter.{
  Exporter, ProducerApi, Called, Durations, recorded, awaited, appended, append_to,
  append_and_await, consume_marshalled, consume_metrics, signal_type_metrics,
}

module _ {Q P H W Store : Type 0} (queue_fails : Q → Bool) (api : ProducerApi P H W Store)
    (store_factory : ObjectStoreConfig → W → W × (Error ⊎ Store)) where
  -- What a call that returned no error has behind it.
  pub record Exported (e : Exporter Q P) (payload : Bytes) (w w' : W) : Type 0 where
    pub producer : P
    pub watcher : H
    pub between : W
    pub running : e.producer ≡ some producer
    pub was_appended : api.append producer (payload ∷ []) e.metadata w ≡ (between, inr watcher)
    pub was_durable : api.await_durable watcher between ≡ (w', none)

  append_to-Exported :
      (p : Option P) (payload : Bytes) (took : Durations) (e : Exporter Q P) (w : W)
      → e.producer ≡ p
      → (append_to queue_fails api store_factory p payload took e w).error ≡ none
      → Exported e payload w (append_to queue_fails api store_factory p payload took e w).world
  unfolding append_to appended awaited
  append_to-Exported none payload took e w is_p h = absurd (cc h)
  append_to-Exported (some p) payload took e w is_p h =
      answered (api.append p (payload ∷ []) e.metadata w) refl h
    where
      e' : Exporter Q P
      e' = recorded (record_enqueue_wait took.enqueue) e

      waited :
          (watcher : H) (w1 : W) (x : W × Option Error)
          → api.append p (payload ∷ []) e.metadata w ≡ (w1, inr watcher)
          → api.await_durable watcher w1 ≡ x
          → (awaited queue_fails api store_factory x e').error ≡ none
          → Exported e payload w (awaited queue_fails api store_factory x e').world
      waited watcher w1 (w2, some x) sent is_x no_error = absurd (cc no_error)
      waited watcher w1 (w2, none) sent is_x no_error = record {
        producer = p;
        watcher = watcher;
        between = w1;
        running = is_p;
        was_appended = sent;
        was_durable = is_x;
      }

      answered :
          (x : W × (Error ⊎ H))
          → api.append p (payload ∷ []) e.metadata w ≡ x
          → (appended queue_fails api store_factory x e').error ≡ none
          → Exported e payload w (appended queue_fails api store_factory x e').world
      answered (w1, inl x) is_x no_error = absurd (cc no_error)
      answered (w1, inr watcher) is_x no_error =
          waited watcher w1 (api.await_durable watcher w1) is_x refl no_error

  consume_marshalled-Exported :
      (x : Option Bytes) (took : Durations) (e : Exporter Q P) (w : W)
      → (consume_marshalled queue_fails api store_factory x took e w).error ≡ none
      → (payload : Bytes) × (x ≡ some payload)
        × Exported e payload w (consume_marshalled queue_fails api store_factory x took e w).world
  unfolding consume_marshalled append_and_await
  consume_marshalled-Exported none took e w h = absurd (cc h)
  consume_marshalled-Exported (some payload) took e w h =
      let a =
        append_to-Exported e.producer payload took
          (recorded (record_marshal (length payload) took.marshal) e) w refl h in
      (
        payload,
        refl,
        record {
          producer = a.producer;
          watcher = a.watcher;
          between = a.between;
          running = a.running;
          was_appended = a.was_appended;
          was_durable = a.was_durable;
        },
      )

  -- A request for metrics that returns no error was made to an exporter of metrics that runs; its
  -- marshalled form was appended, under the exporter's header, to its producer, which has then
  -- reported it durable.
  pub consume_metrics-Exported :
      {M : Type 0} (marshal_metrics : M → Option Bytes) (metric_count data_point_count : M → ℕ)
      (md : M) (took : Durations) (e : Exporter Q P) (w : W)
      → (consume_metrics queue_fails api store_factory marshal_metrics metric_count data_point_count
          md took e w).error
        ≡ none
      → (e.signal_type ≡ signal_type_metrics)
        × (payload : Bytes) × (marshal_metrics md ≡ some payload)
        × Exported e payload w
            (consume_metrics queue_fails api store_factory marshal_metrics metric_count
              data_point_count md took e w).world
  unfolding consume_metrics
  consume_metrics-Exported marshal_metrics metric_count data_point_count md took e w h =
      let started = record_request_start_metrics (metric_count md) (data_point_count md) in
      elim (Bool-cases (e.signal_type == signal_type_metrics)) [
        | inl own ↦
            let run = if_then (e.signal_type == signal_type_metrics) own _ _ in
            let (payload, marshalled, a) =
              consume_marshalled-Exported (marshal_metrics md) took (recorded started e) w
                (sym (ap (λ (c : Called Q P W). c.error) run) ∙ h) in
            (
              (==_iff _ _).0 own,
              payload,
              marshalled,
              record {
                producer = a.producer;
                watcher = a.watcher;
                between = a.between;
                running = a.running;
                was_appended = a.was_appended;
                was_durable = a.was_durable ∙ ap (λ (c : Called Q P W). (c.world, none)) (sym run);
              },
            )
        | inr other ↦ absurd (
            cc (
              ap (λ (c : Called Q P W). c.error)
                  (if_else (e.signal_type == signal_type_metrics) other _ _),
              h,
            ))
      ]
