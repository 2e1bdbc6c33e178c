-- ===== src/Producer.antt =====
-- buffer/producer.go: the stages of the producer around the committer.
pub mod Accumulator
pub mod Retry
pub mod Rotator
pub mod Watchers
pub mod Encoder
pub mod Append
pub mod Config
pub mod Upload
pub mod Appends
pub mod Durability
pub mod Flushing
pub mod Closing
mod Tests
