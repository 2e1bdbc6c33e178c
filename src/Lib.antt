-- ===== src/Lib.antt =====
-- opendata-go: a producer (package buffer) that batches opaque entries, writes each batch as an object
-- and appends it to a manifest object that other producers and a consumer share; and an exporter of the
-- OpenTelemetry Collector on top of it.
--
-- The parts, in the order of the data:
--   * buffer/producer.go, `AppendContext` and `rotator`: messages become numbered batches
--     (Producer/Accumulator.antt, Producer/Rotator.antt and its children). The two kinds of reservation
--     that they take are buffer/budget.go (Budget.antt, Budget/Accounts.antt, Budget/Wakeup.antt).
--   * buffer/batch.go: `EncodeBatch` and `DecodeBatch` (Batch.antt; Batch/RoundTrip.antt and
--     Batch/Safety.antt).
--   * buffer/producer.go, `putWithRetry`, `casWithRetry`, `backoffFor` (Producer/Retry.antt).
--   * buffer/producer.go, `manifestCommitter`: completions in any order become groups in order
--     (Committer.antt; Committer/Ready.antt, Committer/Accounts.antt, Committer/Order.antt,
--     Committer/Numbered.antt, Committer/Distinct.antt, Committer/Fitting.antt), from its start to its end (Committer/Run.antt and
--     its children).
--   * buffer/manifest.go: the manifest's format (Manifest.antt, Manifest/Encode.antt,
--     Manifest/Decode.antt, against the reference layout of Manifest/Layout.antt), and
--     `manifestEnqueuer` (Enqueuer.antt; Enqueuer/Read.antt, Enqueuer/Rounds.antt,
--     Enqueuer/Commit.antt, Enqueuer/Terminates.antt, Enqueuer/Counts.antt, Enqueuer/Quiet.antt, and
--     Enqueuer/Keeps.antt for calls that fail).
--   * objstore/objstore.go and objstore/memory.go: the store (Store.antt with the contract `CasLaws`,
--     Store/Memory.antt and its children, which fill the contract); objstore/s3.go over a client of the
--     AWS SDK (Store/S3.antt), with the texts of its errors (Store/S3/Texts.antt) and what the service
--     promises (Store/S3/Service.antt)
--     under which it fills the contract (Store/S3/Laws.antt).
--   * buffer/producer.go, `watcherResolver` and `DurabilityWatcher` (Producer/Watchers.antt).
--   * buffer/producer.go, `AppendContext` up to the channel (Producer/Append.antt), `encoder` and
--     `uploaderWorker` (Producer/Encoder.antt); buffer/config.go and the defaults of `NewProducer`
--     (Producer/Config.antt).
--   * buffer/producer.go, `AwaitDurable` (Producer/Durability.antt), `Flush` (Producer/Flushing.antt),
--     `Close` (Producer/Closing.antt); encoder, uploader and store together (Producer/Upload.antt), and
--     `casWithRetry` as the committer's write (Producer/Appends.antt), over `enqueueBatch`
--     (Producer/Appends/Enqueued.antt,
--     Producer/Appends/Ordered.antt).
--   * exporter/opendataexporter: config.go and factory.go (Exporter/Settings.antt, Exporter/Valid.antt),
--     metadata.go and exporter.go (Exporter.antt, Exporter/Kept.antt, Exporter/Lifecycle.antt,
--     Exporter/Answers.antt), telemetry.go and the hooks of buffer/observer.go (Exporter/Telemetry.antt,
--     Exporter/Counters.antt, Exporter/Requests.antt, Exporter/Pending.antt). The producer is a record of its operations there.
--
-- Base.antt holds the shared names, lists and results; Bytes.antt bytes, words and decimals.
--
-- How code becomes definitions. A Go error is a value of `Error`; `Outcome` adds `panic`, for a slice
-- expression out of range. Bytes are numbers; u16, u32 and u64 are numbers with the wrap written out,
-- int64 is ℤ in the formats, and `int` lengths are numbers, since they count bytes in memory. Code
-- that holds a mutex is one step; what the exporter's `Shutdown` does after it has released its mutex
-- is a step of its own. Where a client waits, or others write in between, what the others
-- do is an argument: `between` in the enqueuer, `Steps` in the budget, the events of the rotator.
--
-- Fuel. `enqueue_loop` runs on fuel, and one more than the number of rounds that others disturb is
-- enough; `drain` runs on fuel, and one more than the number of ready batches is enough, which is what
-- `receive` gives. An attempt of `casWithRetry` whose `enqueue_loop` has not ended within its fuel counts
-- as one that failed. All other loops are structural.
--
-- Not modelled: the calls of the observer inside the producer and the clock, which only measure;
-- memory reserved ahead for slices; the conflict rate as a float; zstd (a parameter with a law);
-- the AWS SDK, the Collector, its data and its instruments, which are parameters; the factory's
-- glue and `newObjectStore`, which only call them; the command line programs; starting goroutines.
pub mod Base
pub mod Bytes
pub mod Batch
pub mod Manifest
pub mod Store
pub mod Exporter
pub mod Enqueuer
pub mod Committer
pub mod Budget
pub mod Producer
