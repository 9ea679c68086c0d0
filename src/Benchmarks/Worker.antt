-- ===== src/Benchmarks/Worker.antt =====
-- BenchmarkWorker of app/benchmarks/worker.py: the renewal of the lease, the processing of a claimed
-- sample, and the handling of a message.
pub mod Lease
pub mod Surroundings
pub mod Process
pub mod Message
pub mod Renewal
pub mod Recorded
pub mod Renewals
pub mod Histories
mod Tests
