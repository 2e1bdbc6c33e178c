-- ===== src/Exporter/Settings.antt =====
-- exporter/opendataexporter/config.go and factory.go: the configuration, its check and its defaults.
-- Durations are in nanoseconds. The queue's configuration `Q` is the Collector's, as is its check.
use opendata_go.Base.{
  Bool, true, false, Option, none, some, List, [], ◌∷◌, ◌++◌, ◌+◌, ◌&&◌, not, leb, if◌then◌else◌, ℕ,
}
use opendata_go.Bytes.{Bytes, ℤ, pos, negsuc}
use opendata_go.Bytes.Decimal.{same}
use opendata_go.Batch.{compression_none, compression_zstd}
use opendata_go.Producer.Config.{ProducerConfig, default_producer_config, below_one}

-- "s3", "none" and "zstd".
abbrev pub object_store_type_s3 : Bytes
object_store_type_s3 = b's' ∷ b'3' ∷ []

abbrev pub compression_none_name : Bytes
compression_none_name = b'n' ∷ b'o' ∷ b'n' ∷ b'e' ∷ []

abbrev pub compression_zstd_name : Bytes
compression_zstd_name = b'z' ∷ b's' ∷ b't' ∷ b'd' ∷ []

pub record ObjectStoreConfig : Type 0 where
  pub store_type : Bytes
  pub bucket : Bytes
  pub region : Bytes
  pub endpoint : Bytes

pub record Config (Q : Type 0) : Type 0 where
  pub object_store : ObjectStoreConfig
  pub data_path_prefix : Bytes
  pub manifest_path : Bytes
  pub flush_interval : ℤ
  pub flush_size_bytes : ℤ
  pub compression : Bytes
  pub upload_concurrency : ℤ
  pub encode_concurrency : ℤ
  pub max_in_flight_batches : ℤ
  pub max_in_flight_bytes : ℤ
  pub manifest_append_batch_size : ℤ
  pub sending_queue : Option Q
  pub timeout : ℤ

-- The messages that `Validate` may return.
pub data ConfigError : Type 0 where
  config_nil type_required type_unsupported bucket_required region_required : ConfigError
  data_path_prefix_required manifest_path_required : ConfigError
  flush_interval_low flush_size_low upload_concurrency_low encode_concurrency_low : ConfigError
  batches_low bytes_low append_batch_size_low : ConfigError
  queue_invalid timeout_negative compression_unsupported : ConfigError

-- `strings.ToLower` on ASCII, which decides equality with the ASCII names above.
abbrev pub lower : ℕ → ℕ
lower b = if leb b'A' b && leb b b'Z' then b + 32 else b

unfoldable pub to_lower : Bytes → Bytes
to_lower [] = []
to_lower (b ∷ bs) = lower b ∷ to_lower bs

unfoldable pub empty : Bytes → Bool
empty [] = true
empty (b ∷ bs) = false

abbrev pub negative : ℤ → Bool
negative (pos n) = false
negative (negsuc n) = true

-- `if bad { return error }`, and what follows.
unfoldable pub refused_if : Bool → ConfigError → Option ConfigError → Option ConfigError
refused_if true e rest = some e
refused_if false e rest = rest

-- `CompressionType` behind its name.
unfoldable pub compression_type_from_string : Bytes → Option ℕ
compression_type_from_string value =
    if same (to_lower value) compression_none_name
    then some compression_none
    else if same (to_lower value) compression_zstd_name
    then some compression_zstd
    else none

-- `time.Duration` options of the Collector's helper: a timeout, where one is set.
unfoldable pub timeout_options : {Q : Type 0} → Config Q → List ℤ
timeout_options c = if below_one c.timeout then [] else c.timeout ∷ []

module _ {Q : Type 0} (queue_fails : Q → Bool) where
  abbrev pub queue_refused : Option Q → Bool
  queue_refused none = false
  queue_refused (some q) = queue_fails q

  unfoldable pub validate_config : Config Q → Option ConfigError
  unfolding empty to_lower
  validate_config c = refused_if (empty c.object_store.store_type) type_required (
      refused_if (not (same c.object_store.store_type object_store_type_s3)) type_unsupported (
        refused_if (empty c.object_store.bucket) bucket_required (
          refused_if (empty c.object_store.region) region_required (
            refused_if (empty c.data_path_prefix) data_path_prefix_required (
              refused_if (empty c.manifest_path) manifest_path_required (
                refused_if (below_one c.flush_interval) flush_interval_low (
                  refused_if (below_one c.flush_size_bytes) flush_size_low (
                    refused_if (below_one c.upload_concurrency) upload_concurrency_low (
                      refused_if (below_one c.encode_concurrency) encode_concurrency_low (
                        refused_if (below_one c.max_in_flight_batches) batches_low (
                          refused_if (below_one c.max_in_flight_bytes) bytes_low (
                            refused_if (below_one c.manifest_append_batch_size)
                              append_batch_size_low
                              (refused_if (queue_refused c.sending_queue) queue_invalid (
                                refused_if (negative c.timeout) timeout_negative (
                                  refused_if
                                    (not (same (to_lower c.compression) compression_none_name)
                                      && not (same (to_lower c.compression) compression_zstd_name))
                                    compression_unsupported none)))))))))))))))

  -- The receiver of `Validate` may be a nil pointer.
  unfoldable pub validate : Option (Config Q) → Option ConfigError
  unfolding validate_config
  validate none = some config_nil
  validate (some c) = validate_config c

-- "ingest/otel/metrics/data" and "ingest/otel/metrics/manifest".
abbrev pub metrics_path : Bytes
metrics_path =
    b'i' ∷ b'n' ∷ b'g' ∷ b'e' ∷ b's' ∷ b't' ∷ b'/' ∷ b'o' ∷ b't' ∷ b'e' ∷ b'l' ∷ b'/' ∷ b'm' ∷ b'e'
    ∷ b't' ∷ b'r' ∷ b'i' ∷ b'c' ∷ b's' ∷ b'/' ∷ []

abbrev pub default_metrics_data_path_prefix : Bytes
default_metrics_data_path_prefix = metrics_path ++ (b'd' ∷ b'a' ∷ b't' ∷ b'a' ∷ [])

abbrev pub default_metrics_manifest_path : Bytes
default_metrics_manifest_path =
    metrics_path ++ (b'm' ∷ b'a' ∷ b'n' ∷ b'i' ∷ b'f' ∷ b'e' ∷ b's' ∷ b't' ∷ [])

-- The queue's default is the Collector's.
unfoldable pub create_default_config : {Q : Type 0} → Q → Config Q
create_default_config default_queue = record {
  object_store = record {
    store_type = object_store_type_s3;
    bucket = [];
    region = [];
    endpoint = [];
  };
  data_path_prefix = default_metrics_data_path_prefix;
  manifest_path = default_metrics_manifest_path;
  flush_interval = pos 10000000000;
  flush_size_bytes = pos 1048576;
  compression = compression_zstd_name;
  upload_concurrency = default_producer_config.upload_concurrency;
  encode_concurrency = default_producer_config.encode_concurrency;
  max_in_flight_batches = default_producer_config.max_in_flight_batches;
  max_in_flight_bytes = default_producer_config.max_in_flight_bytes;
  manifest_append_batch_size = default_producer_config.manifest_append_batch_size;
  sending_queue = some default_queue;
  timeout = pos 0;
}

-- What `Start` hands to `NewProducer`.
unfoldable pub producer_config_of : {Q : Type 0} → Config Q → ℕ → ProducerConfig
producer_config_of c kind = record default_producer_config {
  data_path_prefix = c.data_path_prefix;
  manifest_path = c.manifest_path;
  flush_interval = c.flush_interval;
  flush_size_bytes = c.flush_size_bytes;
  upload_concurrency = c.upload_concurrency;
  encode_concurrency = c.encode_concurrency;
  max_in_flight_batches = c.max_in_flight_batches;
  max_in_flight_bytes = c.max_in_flight_bytes;
  manifest_append_batch_size = c.manifest_append_batch_size;
  batch_compression = kind;
}
