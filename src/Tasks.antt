-- ===== src/Tasks.antt =====
-- The trusted reference solutions of app/tasks/definitions. Their arguments are typed here, so that
-- the checks of types (`isinstance`) have no counterpart.
pub mod CircuitBreaker
pub mod RetryBackoff
pub mod IntervalReservation
pub mod RateLimiter
pub mod FrameDecoder
mod Tests
