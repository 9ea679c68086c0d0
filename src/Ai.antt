-- ===== src/Ai.antt =====
-- The supplemental AI assessment of app/ai: judges and generated tests, which advise beside the
-- deterministic score.
pub mod Models
pub mod Platform
pub mod Prompts
pub mod Scoring
pub mod Validation
pub mod Judge
pub mod Adversarial
pub mod Service
mod Tests
