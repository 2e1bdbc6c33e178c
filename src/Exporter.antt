-- ===== src/Exporter.antt =====
-- exporter/opendataexporter: the exporter of the OpenTelemetry Collector that hands marshalled
-- requests to a producer. The Collector's data, marshallers and queue and the AWS SDK behind the
-- store are parameters; durations are arguments of the calls that measure them. exporter.go's mutex
-- makes `Start` one step; `Shutdown` releases it after its first step, so its steps stand apart.
pub mod Settings
pub mod Valid
pub mod Telemetry
pub mod Kept
pub mod Lifecycle
pub mod Counters
pub mod Requests
pub mod Answers
pub mod Pending
mod Tests
use opendata_go.Base.{
  Bool, true, false, Option, none, some, List, [], ◌∷◌, ◌++◌, ◌⊎◌, inl, inr, Outcome, ok, err,
  panic, Error, ◌||◌, ◌==◌, if◌then◌else◌, length, map, ℕ,
}
use opendata_go.Bytes.{Bytes, ℤ}
use opendata_go.Producer.Config.{ProducerConfig}
use opendata_go.Exporter.Settings.{
  Config, ConfigError, ObjectStoreConfig, validate, compression_type_from_string,
  producer_config_of,
}
use opendata_go.Exporter.Telemetry.{
  Recording, Stage, start_stage, enqueue_stage, durable_wait_stage, marshal_stage,
  record_request_start_metrics, record_request_start_logs, record_marshal, record_enqueue_wait,
  record_durable_wait, record_failure, slow_threshold,
}

abbrev pub metadata_version : ℕ
metadata_version = 1

abbrev pub signal_type_metrics : ℕ
signal_type_metrics = 1

abbrev pub signal_type_logs : ℕ
signal_type_logs = 2

abbrev pub payload_encoding_otlp : ℕ
payload_encoding_otlp = 1

abbrev pub encode_metadata : ℕ → ℕ → Bytes
encode_metadata signal_type encoding = metadata_version ∷ signal_type ∷ encoding ∷ 0 ∷ []

-- "_odb_gateway_received_at".
abbrev pub gateway_received_at_attr_key : Bytes
gateway_received_at_attr_key =
    b'_' ∷ b'o' ∷ b'd' ∷ b'b' ∷ b'_' ∷ b'g' ∷ b'a' ∷ b't' ∷ b'e' ∷ b'w' ∷ b'a' ∷ b'y' ∷ b'_' ∷ b'r'
    ∷ b'e' ∷ b'c' ∷ b'e' ∷ b'i' ∷ b'v' ∷ b'e' ∷ b'd' ∷ b'_' ∷ b'a' ∷ b't' ∷ []

pub data ExporterError : Type 0 where
  invalid : ConfigError → ExporterError
  store_failed : Error → ExporterError
  unsupported_compression : ExporterError
  unsupported_signal : ExporterError
  wrong_signal : ExporterError
  marshal_failed : ExporterError
  not_started : ExporterError
  producer_failed : Error → ExporterError

-- What the exporter uses of a producer: `W` is the state of the rest of the world, `H` a watcher.
pub record ProducerApi (P H W Store : Type 0) : Type 0 where
  pub new_producer : Store → ProducerConfig → W → W × P
  pub append : P → List Bytes → Bytes → W → W × (Error ⊎ H)
  pub await_durable : H → W → W × Option Error
  pub close : P → W → W × Option Error

pub record Exporter (Q P : Type 0) : Type 0 where
  pub config : Config Q
  pub signal_type : ℕ
  pub metadata : Bytes
  pub producer : Option P
  -- What the telemetry holds: the producer of its gauge, its threshold, and its output.
  pub gauge_producer : Option P
  pub slow_request_threshold : ℕ
  pub recordings : List Recording

pub record Called (Q P W : Type 0) : Type 0 where
  pub exporter : Exporter Q P
  pub world : W
  pub error : Option ExporterError

-- How long the steps of a request took.
pub record Durations : Type 0 where
  pub marshal : ℕ
  pub enqueue : ℕ
  pub durable_wait : ℕ

abbrev pub fresh_exporter : {Q P : Type 0} → Config Q → ℕ → Exporter Q P
fresh_exporter config signal_type = record {
  config = config;
  signal_type = signal_type;
  metadata = encode_metadata signal_type payload_encoding_otlp;
  producer = none;
  gauge_producer = none;
  slow_request_threshold = slow_threshold config.flush_interval;
  recordings = [];
}

-- `newOpenDataExporterForSignalWithTelemetry`, whose instruments are created without an error.
unfoldable pub new_exporter : {Q P : Type 0} → Config Q → ℕ → ExporterError ⊎ Exporter Q P
new_exporter config signal_type =
    if (signal_type == signal_type_metrics) || (signal_type == signal_type_logs)
    then inr (fresh_exporter config signal_type)
    else inl unsupported_signal

abbrev pub recorded : {Q P : Type 0} → List Recording → Exporter Q P → Exporter Q P
recorded rs e = record e { recordings = e.recordings ++ rs }

abbrev pub producer_error : Option Error → Option ExporterError
producer_error none = none
producer_error (some e) = some (producer_failed e)

-- `Shutdown` under the mutex: the producer is taken out of the exporter.
abbrev pub take_producer : {Q P : Type 0} → Exporter Q P → Exporter Q P
take_producer e = record e { producer = none }

-- `e.telemetry.setProducer(nil)`, which `Shutdown` does after it has released the mutex.
abbrev pub detach_gauge : {Q P : Type 0} → Exporter Q P → Exporter Q P
detach_gauge e = record e { gauge_producer = none }

module _ {Q P H W Store : Type 0} (queue_fails : Q → Bool) (api : ProducerApi P H W Store)
    (store_factory : ObjectStoreConfig → W → W × (Error ⊎ Store)) where
  -- `Start`, from the compression's name on, from the store on, and from the check on.
  unfoldable pub start_compression : Option ℕ → Store → Exporter Q P → W → Called Q P W
  start_compression none store e w = record {
    exporter = e;
    world = w;
    error = some unsupported_compression;
  }
  start_compression (some kind) store e w =
      let made = api.new_producer store (producer_config_of e.config kind) w in
      record {
        exporter = record e { producer = some made.1; gauge_producer = some made.1 };
        world = made.0;
        error = none;
      }

  unfoldable pub start_store : W × (Error ⊎ Store) → Exporter Q P → Called Q P W
  unfolding start_compression
  start_store (w, inl x) e = record { exporter = e; world = w; error = some (store_failed x) }
  start_store (w, inr store) e =
      start_compression (compression_type_from_string e.config.compression) store e w

  unfoldable pub start_valid : Option ConfigError → Option P → Exporter Q P → W → Called Q P W
  unfolding start_store
  start_valid (some x) p e w = record { exporter = e; world = w; error = some (invalid x) }
  start_valid none (some p) e w = record { exporter = e; world = w; error = none }
  start_valid none none e w = start_store (store_factory e.config.object_store w) e

  unfoldable pub start : Exporter Q P → W → Called Q P W
  unfolding start_valid
  start e w = start_valid (validate queue_fails (some e.config)) e.producer e w

  -- `Shutdown` behind its first step, on the producer that it took: the gauge is detached, and the
  -- producer closed.
  unfoldable pub shutdown_producer : Option P → Exporter Q P → W → Called Q P W
  shutdown_producer none e w = record { exporter = e; world = w; error = none }
  shutdown_producer (some p) e w = record {
    exporter = detach_gauge e;
    world = (api.close p w).0;
    error = producer_error (api.close p w).1;
  }

  -- `Shutdown` where nothing else happens between its steps.
  unfoldable pub shutdown : Exporter Q P → W → Called Q P W
  unfolding shutdown_producer
  shutdown e w = shutdown_producer e.producer (take_producer e) w

  -- `appendAndAwait`, from the end of the wait on, from the append on, and from its start.
  unfoldable pub awaited : W × Option Error → Exporter Q P → Called Q P W
  awaited (w, some x) e = record {
    exporter = recorded (record_failure durable_wait_stage) e;
    world = w;
    error = some (producer_failed x);
  }
  awaited (w, none) e = record { exporter = e; world = w; error = none }

  unfoldable pub appended : W × (Error ⊎ H) → Exporter Q P → Called Q P W
  unfolding awaited
  appended (w, inl x) e = record {
    exporter = recorded (record_failure enqueue_stage) e;
    world = w;
    error = some (producer_failed x);
  }
  appended (w, inr watcher) e = awaited (api.await_durable watcher w) e

  unfoldable pub append_to : Option P → Bytes → Durations → Exporter Q P → W → Called Q P W
  unfolding appended
  append_to none payload took e w = record {
    exporter = recorded (record_failure start_stage) e;
    world = w;
    error = some not_started;
  }
  append_to (some p) payload took e w =
      appended (api.append p (payload ∷ []) e.metadata w)
        (recorded (record_enqueue_wait took.enqueue) e)

  unfoldable pub append_and_await : Bytes → Durations → Exporter Q P → W → Called Q P W
  unfolding append_to
  append_and_await payload took e w = append_to e.producer payload took e w

  -- `ConsumeMetrics` and `ConsumeLogs` behind their first recording: the marshalled request, or none
  -- where the marshaller fails.
  unfoldable pub consume_marshalled : Option Bytes → Durations → Exporter Q P → W → Called Q P W
  unfolding append_and_await
  consume_marshalled none took e w = record {
    exporter = recorded (record_failure marshal_stage) e;
    world = w;
    error = some marshal_failed;
  }
  consume_marshalled (some payload) took e w =
      let called =
        append_and_await payload took (recorded (record_marshal (length payload) took.marshal) e)
          w in
      record called {
        exporter =
            recorded (record_durable_wait e.slow_request_threshold took.durable_wait called.error)
              called.exporter;
      }

  module _ {M : Type 0} (marshal_metrics : M → Option Bytes)
      (metric_count data_point_count : M → ℕ) where
    unfoldable pub consume_metrics : M → Durations → Exporter Q P → W → Called Q P W
    unfolding consume_marshalled
    consume_metrics md took e w =
        if e.signal_type == signal_type_metrics
        then consume_marshalled (marshal_metrics md) took
            (recorded (record_request_start_metrics (metric_count md) (data_point_count md)) e) w
        else record { exporter = e; world = w; error = some wrong_signal }

  -- The resources of a request for logs are `R`.
  module _ {R : Type 0} (put_int : Bytes → ℤ → R → R) (marshal_logs : List R → Option Bytes)
      (log_record_count : List R → ℕ) where
    unfoldable pub stamp_gateway_received_at : ℤ → List R → List R
    stamp_gateway_received_at stamp [] = []
    stamp_gateway_received_at stamp (r ∷ rs) =
        put_int gateway_received_at_attr_key stamp r ∷ stamp_gateway_received_at stamp rs

    unfoldable pub consume_logs : List R → ℤ → Durations → Exporter Q P → W → Called Q P W
    unfolding consume_marshalled stamp_gateway_received_at
    consume_logs ld now took e w =
        if e.signal_type == signal_type_logs
        then (let stamped = stamp_gateway_received_at now ld in
            consume_marshalled (marshal_logs stamped) took
              (recorded (record_request_start_logs (log_record_count stamped)) e) w)
        else record { exporter = e; world = w; error = some wrong_signal }
