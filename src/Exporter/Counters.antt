-- ===== src/Exporter/Counters.antt =====
-- exporter/opendataexporter/telemetry.go: what recordings add up to on the counters of requests.
use opendata_go.Base.{
  leb, refl, Bool-cases, Option, none, some, List, [], ◌∷◌, ◌++◌, ◌≡◌, ◌+◌, inl, inr, ℕ, arith,
}
use opendata_go.Exporter.Telemetry.{
  Recording, Stage, success, requests_total, request_failures_total, durable_wait_duration,
  record_request_start_metrics, record_marshal, record_enqueue_wait, record_durable_wait,
  record_failure,
}
use opendata_go.Exporter.{Exporter, ExporterError, Called, recorded}

-- What the recordings add up to on the counters.
unfoldable pub total : (Recording → ℕ) → List Recording → ℕ
total value [] = 0
total value (r ∷ rs) = value r + total value rs

abbrev pub request_count : Recording → ℕ
request_count (requests_total n) = n
request_count r = 0

abbrev pub failure_count : Recording → ℕ
failure_count (request_failures_total stage n) = n
failure_count r = 0

-- The samples of the wait that are labelled a success.
abbrev pub success_count : Recording → ℕ
success_count (durable_wait_duration success d) = 1
success_count r = 0

pub total-append :
    (value : Recording → ℕ) (xs ys : List Recording)
    → total value (xs ++ ys) ≡ total value xs + total value ys
unfolding total
total-append value [] ys = omega arith
total-append value (x ∷ xs) ys = omega (arith, total-append value xs ys)

-- One request more, which succeeded or failed.
abbrev pub one_failure : {E : Type 0} → Option E → ℕ
one_failure none = 0
one_failure (some x) = 1

abbrev pub one_success : {E : Type 0} → Option E → ℕ
one_success none = 1
one_success (some x) = 0

-- What a call has added to the counters.
pub record Counted {Q P W : Type 0} (before : List Recording) (requests failures successes : ℕ)
    (c : Called Q P W) : Type 0 where
  pub requests_are :
      total request_count c.exporter.recordings ≡ total request_count before + requests
  pub failures_are :
      total failure_count c.exporter.recordings ≡ total failure_count before + failures
  pub successes_are :
      total success_count c.exporter.recordings ≡ total success_count before + successes

-- The sums of some recordings.
pub record Sums (rs : List Recording) (requests failures successes : ℕ) : Type 0 where
  pub requests_sum : total request_count rs ≡ requests
  pub failures_sum : total failure_count rs ≡ failures
  pub successes_sum : total success_count rs ≡ successes

pub Counted-behind :
    {Q P W : Type 0} (before rs : List Recording) (r r' f s : ℕ) (c : Called Q P W)
    → Sums rs r 0 0
    → Counted (before ++ rs) r' f s c
    → Counted before (r + r') f s c
Counted-behind before rs r r' f s c sums counted = record {
  requests_are =
      omega (arith, counted.requests_are, total-append request_count before rs, sums.requests_sum);
  failures_are =
      omega (arith, counted.failures_are, total-append failure_count before rs, sums.failures_sum);
  successes_are =
      omega
        (arith, counted.successes_are, total-append success_count before rs, sums.successes_sum);
}

pub Counted-then :
    {Q P W : Type 0} (before rs : List Recording) (r f s : ℕ) (c : Called Q P W)
    → Counted before r f 0 c
    → Sums rs 0 0 s
    → Counted before r f s (record c { exporter = recorded rs c.exporter })
Counted-then before rs r f s c counted sums = record {
  requests_are = omega (
    arith,
    counted.requests_are,
    total-append request_count c.exporter.recordings rs,
    sums.requests_sum,
  );
  failures_are = omega (
    arith,
    counted.failures_are,
    total-append failure_count c.exporter.recordings rs,
    sums.failures_sum,
  );
  successes_are = omega (
    arith,
    counted.successes_are,
    total-append success_count c.exporter.recordings rs,
    sums.successes_sum,
  );
}

pub unchanged :
    {Q P W : Type 0} (e : Exporter Q P) (w : W) (x : Option ExporterError)
    → Counted e.recordings 0 0 0 (record { exporter = e; world = w; error = x })
unchanged e w x = record {
  requests_are = omega arith;
  failures_are = omega arith;
  successes_are = omega arith;
}

pub record_failure-Sums : (stage : Stage) → Sums (record_failure stage) 0 1 0
unfolding record_failure total
record_failure-Sums stage = record {
  requests_sum = omega arith;
  failures_sum = omega arith;
  successes_sum = omega arith;
}

pub record_enqueue_wait-Sums : (d : ℕ) → Sums (record_enqueue_wait d) 0 0 0
unfolding record_enqueue_wait total
record_enqueue_wait-Sums d = record {
  requests_sum = omega arith;
  failures_sum = omega arith;
  successes_sum = omega arith;
}

pub record_marshal-Sums : (n d : ℕ) → Sums (record_marshal n d) 0 0 0
unfolding record_marshal total
record_marshal-Sums n d = record {
  requests_sum = omega arith;
  failures_sum = omega arith;
  successes_sum = omega arith;
}

pub record_request_start_metrics-Sums : (m d : ℕ) → Sums (record_request_start_metrics m d) 1 0 0
unfolding record_request_start_metrics total
record_request_start_metrics-Sums m d = record {
  requests_sum = omega arith;
  failures_sum = omega arith;
  successes_sum = omega arith;
}

pub record_durable_wait-Sums :
    {E : Type 0} (threshold d : ℕ) (x : Option E)
    → Sums (record_durable_wait threshold d x) 0 0 (one_success x)
unfolding record_durable_wait total
record_durable_wait-Sums threshold d (some x) = record {
  requests_sum = omega arith;
  failures_sum = omega arith;
  successes_sum = omega arith;
}
record_durable_wait-Sums threshold d none = elim (Bool-cases (leb threshold d)) [
  | inl slow ↦ record {
    requests_sum = rw slow (omega arith);
    failures_sum = rw slow (omega arith);
    successes_sum = rw slow (omega arith);
  }
  | inr quick ↦ record {
    requests_sum = rw quick (omega arith);
    failures_sum = rw quick (omega arith);
    successes_sum = rw quick (omega arith);
  }
]

pub one_success_or_failure : {E : Type 0} (x : Option E) → one_success x + one_failure x ≡ 1
one_success_or_failure none = refl
one_success_or_failure (some x) = refl
