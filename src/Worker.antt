-- ===== src/Worker.antt =====
-- The evaluation worker (app/worker/service.py).
pub mod Validation
pub mod Process
pub mod Deliveries
pub mod Heartbeat
pub mod Identity
mod Tests
