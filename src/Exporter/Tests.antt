-- ===== src/Exporter/Tests.antt =====
-- An exporter of metrics over a producer that takes and stores everything.
use opendata_go.Base.{
  Bool, false, Option, none, some, List, [], ◌∷◌, ◌≡◌, ◌↔◌, ◌+◌, ◌⊎◌, inr, Error, length, ℕ, refl,
}
use opendata_go.Bytes.{Bytes, ℤ}
use opendata_go.Producer.Config.{with_defaults, ProducerConfig}
use opendata_go.Producer.Rotator.{size}
use opendata_go.Committer.{committed}
use opendata_go.Exporter.Settings.{
  Config, ObjectStoreConfig, object_store_type_s3, validate, create_default_config,
  producer_config_of,
}
use opendata_go.Exporter.Valid.{IsValid, validate_iff, create_default_config-IsValid}
use opendata_go.Exporter.Telemetry.{
  ObserverCall, on_accepted, on_flush, on_manifest_enqueue, on_batch_outcome, observe_all,
}
use opendata_go.Exporter.{
  Exporter, ProducerApi, Durations, fresh_exporter, start, consume_metrics, consume_marshalled,
  append_and_await, append_to, appended, awaited, signal_type_metrics, take_producer, detach_gauge,
}
use opendata_go.Exporter.Counters.{total, request_count, failure_count, success_count}
use opendata_go.Exporter.Requests.{consume_all, succeeded, failed, consume_all-Counted}
use opendata_go.Exporter.Answers.{Exported, consume_metrics-Exported}
use opendata_go.Exporter.Lifecycle.{Carries, start-Carries}
use opendata_go.Exporter.Pending.{
  call_total, up, down, conflicts_total, outcomes_total, accepted_inputs, flushed_inputs,
  conflicts_of, outcome_of, observe_all_lem,
}

abbrev fails : Bool → Bool
fails q = q

abbrev some_name : Bytes
some_name = b'b' ∷ []

abbrev config : Config Bool
config = record (create_default_config false) {
  object_store = record {
    store_type = object_store_type_s3;
    bucket = some_name;
    region = some_name;
    endpoint = [];
  };
}

config-IsValid : IsValid fails config
config-IsValid =
    create_default_config-IsValid fails false some_name some_name [] refl (λ e. cc e) (λ e. cc e)

-- The world counts the payloads that were appended.
abbrev api : ProducerApi ℕ ℕ ℕ Bytes
api = record {
  new_producer = λ store c w. (w, 7);
  append = λ p payloads metadata w. (w + length payloads, inr w);
  await_durable = λ h w. (w, none);
  close = λ p w. (w, none);
}

abbrev opens : ObjectStoreConfig → ℕ → ℕ × (Error ⊎ Bytes)
opens c w = (w, inr c.bucket)

abbrev marshalled : ℕ → Option Bytes
marshalled n = some (n ∷ [])

abbrev one : ℕ → ℕ
one md = 1

abbrev took : Durations
took = record { marshal = 1; enqueue = 2; durable_wait = 3 }

abbrev stopped : Exporter Bool ℕ
stopped = fresh_exporter config signal_type_metrics

abbrev running : Exporter Bool ℕ
running = record stopped { producer = some 7; gauge_producer = some 7 }

validate_iff_example :
    (validate fails (some config) ≡ none)
    ↔ ((c : Config Bool) × (some config ≡ some c) × IsValid fails c)
validate_iff_example = validate_iff fails (some config)

start-Carries_example :
    (kind : ℕ) × (made : ProducerConfig) × Carries config kind made
    × (with_defaults made ≡ made)
    × ((start fails api opens stopped 0).error ≡ none)
    × ((start fails api opens stopped 0).exporter.producer ≡ some 7)
    × ((start fails api opens stopped 0).exporter.gauge_producer ≡ some 7)
start-Carries_example = start-Carries fails api opens stopped 0 0 some_name config-IsValid refl refl

abbrev put : Bytes → ℤ → ℕ → ℕ
put key value r = r

abbrev marshalled_logs : List ℕ → Option Bytes
marshalled_logs rs = some rs

-- A `Start` between the steps of a `Shutdown`, which then detaches the new producer.
abbrev restarted : Exporter Bool ℕ
restarted = detach_gauge (start fails api opens (take_producer running) 0).exporter

abbrev calls : List (ℕ × Durations)
calls = (5, took) ∷ (6, took) ∷ []

consume_all-Counted_example :
    (total request_count
        (consume_all fails api opens marshalled one one calls stopped 0).0.recordings
      ≡ total request_count [] + 2)
    × (total failure_count
          (consume_all fails api opens marshalled one one calls stopped 0).0.recordings
        ≡ total failure_count []
          + failed (consume_all fails api opens marshalled one one calls stopped 0).2)
    × (total success_count
          (consume_all fails api opens marshalled one one calls stopped 0).0.recordings
        ≡ total success_count []
          + succeeded (consume_all fails api opens marshalled one one calls stopped 0).2)
    × (succeeded (consume_all fails api opens marshalled one one calls stopped 0).2
          + failed (consume_all fails api opens marshalled one one calls stopped 0).2
        ≡ 2)
consume_all-Counted_example =
    consume_all-Counted fails api opens marshalled one one calls stopped 0 refl

no_error : (consume_metrics fails api opens marshalled one one 5 took running 0).error ≡ none
unfolding consume_metrics consume_marshalled append_and_await append_to appended awaited
no_error = refl

consume_metrics-Exported_example :
    (signal_type_metrics ≡ signal_type_metrics)
    × (payload : Bytes) × (marshalled 5 ≡ some payload)
    × Exported fails api opens running payload 0
        (consume_metrics fails api opens marshalled one one 5 took running 0).world
consume_metrics-Exported_example =
    consume_metrics-Exported fails api opens marshalled one one 5 took running 0 no_error

abbrev hooks : List ObserverCall
hooks =
    on_accepted
    ∷ on_accepted
    ∷ on_manifest_enqueue 2 50 4 none
    ∷ on_flush size (record { inputs = 2; entries = 2; uncompressed_bytes = 9 }) 60 70 none
    ∷ on_batch_outcome committed
    ∷ []

observe_all_lem_example :
    (total up (observe_all 5000000000 hooks) ≡ call_total accepted_inputs hooks)
    × (total down (observe_all 5000000000 hooks) ≡ call_total flushed_inputs hooks)
    × (total conflicts_total (observe_all 5000000000 hooks) ≡ call_total conflicts_of hooks)
    × (total outcomes_total (observe_all 5000000000 hooks) ≡ call_total outcome_of hooks)
observe_all_lem_example = observe_all_lem 5000000000 hooks
