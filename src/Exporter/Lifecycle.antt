-- ===== src/Exporter/Lifecycle.antt =====
-- exporter/opendataexporter/exporter.go: `Start`, `Shutdown` and requests, in any order.
use opendata_go.Base.{
  ap, refl, ◌∙◌, Bool, Option, none, some, List, [], ◌∷◌, ◌++◌, Bool-cases, ◌≡◌, ◌⊎◌, inl, inr,
  Error, ℕ,
}
use mathlib.Core.List.{Mem}
use opendata_go.Bytes.{Bytes, ℤ, pos}
use opendata_go.Bytes.Decimal.{same, same_iff}
use opendata_go.Batch.{compression_none, compression_zstd}
use opendata_go.Exporter.Settings.{
  Config, ConfigError, ObjectStoreConfig, validate, producer_config_of,
  compression_type_from_string, to_lower, compression_none_name, compression_zstd_name,
}
use opendata_go.Producer.Config.{ProducerConfig, with_defaults}
use opendata_go.Exporter.Valid.{with_defaults-producer_config_of, IsValid, validate_iff}
use opendata_go.Exporter.Kept.{Kept}
use opendata_go.Exporter.{
  shutdown_producer, Exporter, ProducerApi, Called, Durations, encode_metadata,
  payload_encoding_otlp, new_exporter, start, start_valid, start_store, start_compression,
  take_producer, detach_gauge, consume_metrics, consume_logs,
}

-- Requests bear the header of the exporter's signal, and a running exporter has a usable
-- configuration. `taken` are the producers that a `Shutdown` took and has not yet detached from the
-- gauge: the gauge reads the exporter's own producer or one of these.
pub record Sound {Q P : Type 0} (queue_fails : Q → Bool) (taken : List P) (e : Exporter Q P)
    : Type 0 where
  pub header : e.metadata ≡ encode_metadata e.signal_type payload_encoding_otlp
  pub gauge : (p : P) → e.gauge_producer ≡ some p → (e.producer ≡ some p) ⊎ Mem p taken
  pub usable : (p : P) → e.producer ≡ some p → IsValid queue_fails e.config

module _ {Q P H W Store M R : Type 0} (queue_fails : Q → Bool) (api : ProducerApi P H W Store)
    (store_factory : ObjectStoreConfig → W → W × (Error ⊎ Store))
    (marshal_metrics : M → Option Bytes) (metric_count data_point_count : M → ℕ)
    (put_int : Bytes → ℤ → R → R) (marshal_logs : List R → Option Bytes)
    (log_record_count : List R → ℕ) where
  -- What an exporter may become, whatever else happens in the world between its calls, with the
  -- producers that a `Shutdown` took and has not yet detached from the gauge. Other calls may come
  -- between the steps of a `Shutdown`; its last one, the producer's `Close`, leaves the exporter alone.
  pub data Lives : List P → Exporter Q P → Type 0 where
    created :
        (config : Config Q) (signal_type : ℕ) {e : Exporter Q P}
        → new_exporter config signal_type ≡ inr e
        → Lives [] e
    after_start :
        {taken : List P} {e : Exporter Q P} (w : W)
        → Lives taken e
        → Lives taken (start queue_fails api store_factory e w).exporter
    shutdown_took :
        {taken : List P} {e : Exporter Q P} (p : P)
        → e.producer ≡ some p
        → Lives taken e
        → Lives (p ∷ taken) (take_producer e)
    shutdown_found_none :
        {taken : List P} {e : Exporter Q P}
        → e.producer ≡ none
        → Lives taken e
        → Lives taken (take_producer e)
    shutdown_detached :
        {e : Exporter Q P} (before : List P) (p : P) (after : List P)
        → Lives (before ++ (p ∷ after)) e
        → Lives (before ++ after) (detach_gauge e)
    after_metrics :
        {taken : List P} {e : Exporter Q P} (md : M) (took : Durations) (w : W)
        → Lives taken e
        → Lives taken
            (consume_metrics queue_fails api store_factory marshal_metrics metric_count
              data_point_count md took e w).exporter
    after_logs :
        {taken : List P} {e : Exporter Q P} (ld : List R) (now : ℤ) (took : Durations) (w : W)
        → Lives taken e
        → Lives taken
            (consume_logs queue_fails api store_factory put_int marshal_logs log_record_count ld now
              took e w).exporter

  -- A `Shutdown` that nothing interrupts is its steps.
  shutdown-Lives :
      (taken : List P) (e : Exporter Q P) (w : W) (x : Option P)
      → e.producer ≡ x
      → Lives taken e
      → Lives taken (shutdown_producer queue_fails api store_factory x (take_producer e) w).exporter
  unfolding shutdown_producer
  shutdown-Lives taken e w none stopped l = shutdown_found_none stopped l
  shutdown-Lives taken e w (some p) running l =
      shutdown_detached [] p taken (shutdown_took p running l)

start_runs :
    {Q P H W Store : Type 0} (queue_fails : Q → Bool) (api : ProducerApi P H W Store)
    (store_factory : ObjectStoreConfig → W → W × (Error ⊎ Store)) (x : Option ConfigError)
    (p : Option P) (e : Exporter Q P) (w w' : W) (store : Store) (kind : ℕ)
    → x ≡ none
    → p ≡ none
    → store_factory e.config.object_store w ≡ (w', inr store)
    → compression_type_from_string e.config.compression ≡ some kind
    → start_valid queue_fails api store_factory x p e w
      ≡ start_compression queue_fails api store_factory (some kind) store e w'
unfolding start_valid start_store
start_runs queue_fails api store_factory (some x) p e w w' store kind hx hp opened known =
    absurd (cc hx)
start_runs queue_fails api store_factory none (some p) e w w' store kind hx hp opened known =
    absurd (cc hp)
start_runs queue_fails api store_factory none none e w w' store kind hx hp opened known =
    ap (λ y. start_store queue_fails api store_factory y e) opened
    ∙ ap (λ k. start_compression queue_fails api store_factory k store e w') known

-- What a configuration asks of the producer: each setting in its place, the compression by its name,
-- and the defaults for what the exporter does not let one set.
pub record Carries {Q : Type 0} (c : Config Q) (kind : ℕ) (made : ProducerConfig) : Type 0 where
  pub compression :
      (to_lower c.compression ≡ compression_none_name) × (kind ≡ 0)
      ⊎ (to_lower c.compression ≡ compression_zstd_name) × (kind ≡ 1)
  pub batch_compression : made.batch_compression ≡ kind
  pub data_path_prefix : made.data_path_prefix ≡ c.data_path_prefix
  pub manifest_path : made.manifest_path ≡ c.manifest_path
  pub flush_interval : made.flush_interval ≡ c.flush_interval
  pub flush_size_bytes : made.flush_size_bytes ≡ c.flush_size_bytes
  pub upload_concurrency : made.upload_concurrency ≡ c.upload_concurrency
  pub encode_concurrency : made.encode_concurrency ≡ c.encode_concurrency
  pub max_in_flight_batches : made.max_in_flight_batches ≡ c.max_in_flight_batches
  pub max_in_flight_bytes : made.max_in_flight_bytes ≡ c.max_in_flight_bytes
  pub manifest_append_batch_size : made.manifest_append_batch_size ≡ c.manifest_append_batch_size
  pub max_buffered_inputs : made.max_buffered_inputs ≡ pos 1000
  pub upload_max_attempts : made.upload_max_attempts ≡ pos 6
  pub upload_initial_backoff : made.upload_initial_backoff ≡ pos 100000000
  pub manifest_max_attempts : made.manifest_max_attempts ≡ pos 6
  pub manifest_initial_backoff : made.manifest_initial_backoff ≡ pos 100000000

compression_meant :
    {Q : Type 0} (queue_fails : Q → Bool) (c : Config Q)
    → IsValid queue_fails c
    → (kind : ℕ) × (compression_type_from_string c.compression ≡ some kind)
      × ((to_lower c.compression ≡ compression_none_name) × (kind ≡ 0)
          ⊎ (to_lower c.compression ≡ compression_zstd_name) × (kind ≡ 1))
unfolding compression_type_from_string
compression_meant queue_fails c v =
    elim (Bool-cases (same (to_lower c.compression) compression_none_name)) [
      | inl is_none ↦ (compression_none, rw is_none, inl ((same_iff _ _).0 is_none, refl))
      | inr other ↦ elim v.known_compression [
        | inl e ↦ absurd (cc (other, (same_iff _ _).1 e))
        | inr e ↦ (compression_zstd, rw (other, (same_iff _ _).1 e), inr (e, refl))
      ]
    ]

-- A stopped exporter with a usable configuration starts where its store can be opened: without an
-- error, on a producer of that store which `NewProducer` makes from each setting of the
-- configuration, with its own defaults changing none of them, and which the gauge then reads.
pub start-Carries :
    {Q P H W Store : Type 0} (queue_fails : Q → Bool) (api : ProducerApi P H W Store)
    (store_factory : ObjectStoreConfig → W → W × (Error ⊎ Store)) (e : Exporter Q P) (w w' : W)
    (store : Store)
    → IsValid queue_fails e.config
    → e.producer ≡ none
    → store_factory e.config.object_store w ≡ (w', inr store)
    → (kind : ℕ) × (made : ProducerConfig) × Carries e.config kind made
      × (with_defaults made ≡ made)
      × ((start queue_fails api store_factory e w).error ≡ none)
      × ((start queue_fails api store_factory e w).exporter.producer
          ≡ some (api.new_producer store made w').1)
      × ((start queue_fails api store_factory e w).exporter.gauge_producer
          ≡ some (api.new_producer store made w').1)
unfolding start start_compression producer_config_of
start-Carries queue_fails api store_factory e w w' store v stopped opened =
    let (kind, known, meant) = compression_meant queue_fails e.config v in
    let accepted = (validate_iff queue_fails (some e.config)).1 (e.config, refl, v) in
    let runs =
      start_runs queue_fails api store_factory (validate queue_fails (some e.config)) e.producer e w
        w' store kind accepted stopped opened known in
    (
      kind,
      producer_config_of e.config kind,
      record {
        compression = meant;
        batch_compression = refl;
        data_path_prefix = refl;
        manifest_path = refl;
        flush_interval = refl;
        flush_size_bytes = refl;
        upload_concurrency = refl;
        encode_concurrency = refl;
        max_in_flight_batches = refl;
        max_in_flight_bytes = refl;
        manifest_append_batch_size = refl;
        max_buffered_inputs = refl;
        upload_max_attempts = refl;
        upload_initial_backoff = refl;
        manifest_max_attempts = refl;
        manifest_initial_backoff = refl;
      },
      with_defaults-producer_config_of queue_fails e.config kind v,
      ap (λ (c : Called _ _ _). c.error) runs,
      ap (λ (c : Called _ _ _). c.exporter.producer) runs,
      ap (λ (c : Called _ _ _). c.exporter.gauge_producer) runs,
    )
