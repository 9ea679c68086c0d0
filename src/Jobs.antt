-- ===== src/Jobs.antt =====
-- The durable evaluation jobs: app/jobs, and the tables of app/db/models.py that they use.
pub mod State
pub mod Retry
pub mod Model
pub mod Transaction
pub mod Repository
pub mod Service
pub mod Invariant
pub mod History
pub mod Lifecycle
pub mod Refinement
pub mod Ownership
pub mod Idempotency
pub mod Tests
