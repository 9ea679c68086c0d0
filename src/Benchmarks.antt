-- ===== src/Benchmarks.antt =====
-- Benchmarks (app/benchmarks): the leases and the lifecycle of samples and runs, winners.
pub mod Model
pub mod Runs
pub mod Samples
pub mod Failures
pub mod Outbox
pub mod Fence
pub mod Winners
pub mod Reliability
pub mod Answers
pub mod Generation
pub mod Worker
pub mod Invariant
mod Tests
