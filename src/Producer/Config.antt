-- ===== src/Producer/Config.antt =====
-- buffer/config.go: the defaults; and how `NewProducer` fills in what was left out. Durations are in
-- nanoseconds.
use opendata_go.Base.{true, ltb, Bool, if◌then◌else◌, [], ◌++◌, ◌∷◌, ℕ}
use opendata_go.Bytes.{negsuc, pos, ℤ, Bytes}

pub record ProducerConfig : Type 0 where
  pub data_path_prefix : Bytes
  pub manifest_path : Bytes
  pub flush_interval : ℤ
  pub flush_size_bytes : ℤ
  pub max_buffered_inputs : ℤ
  pub batch_compression : ℕ
  pub encode_concurrency : ℤ
  pub upload_concurrency : ℤ
  pub max_in_flight_batches : ℤ
  pub max_in_flight_bytes : ℤ
  pub manifest_append_batch_size : ℤ
  pub upload_max_attempts : ℤ
  pub upload_initial_backoff : ℤ
  pub manifest_max_attempts : ℤ
  pub manifest_initial_backoff : ℤ

-- "ingest" and "ingest/manifest".
abbrev pub default_data_path_prefix : Bytes
default_data_path_prefix = 105 ∷ 110 ∷ 103 ∷ 101 ∷ 115 ∷ 116 ∷ []

abbrev pub default_manifest_path : Bytes
default_manifest_path =
    default_data_path_prefix ++ (47 ∷ 109 ∷ 97 ∷ 110 ∷ 105 ∷ 102 ∷ 101 ∷ 115 ∷ 116 ∷ [])

abbrev pub default_producer_config : ProducerConfig
default_producer_config = record {
  data_path_prefix = default_data_path_prefix;
  manifest_path = default_manifest_path;
  flush_interval = pos 100000000;
  flush_size_bytes = pos 67108864;
  max_buffered_inputs = pos 1000;
  batch_compression = 0;
  encode_concurrency = pos 1;
  upload_concurrency = pos 1;
  max_in_flight_batches = pos 64;
  max_in_flight_bytes = pos 268435456;
  manifest_append_batch_size = pos 1;
  upload_max_attempts = pos 6;
  upload_initial_backoff = pos 100000000;
  manifest_max_attempts = pos 6;
  manifest_initial_backoff = pos 100000000;
}

-- `x < 1`, which for integers is `x <= 0`.
abbrev pub below_one : ℤ → Bool
below_one (pos n) = ltb n 1
below_one (negsuc n) = true

abbrev pub or_default : ℤ → ℤ → ℤ
or_default x d = if below_one x then d else x

-- The first part of `NewProducer`.
abbrev pub with_defaults : ProducerConfig → ProducerConfig
with_defaults c = record c {
  max_in_flight_bytes = or_default c.max_in_flight_bytes (pos 268435456);
  max_in_flight_batches = or_default c.max_in_flight_batches (pos 64);
  upload_max_attempts = or_default c.upload_max_attempts (pos 6);
  upload_initial_backoff = or_default c.upload_initial_backoff (pos 100000000);
  manifest_max_attempts = or_default c.manifest_max_attempts (pos 6);
  manifest_initial_backoff = or_default c.manifest_initial_backoff (pos 100000000);
}
