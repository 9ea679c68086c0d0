-- ===== src/Evaluator.antt =====
-- The evaluator of app/evaluator: its models, the scoring policy and the findings.
pub mod Models
pub mod Scoring
pub mod Findings
pub mod Engine
mod Tests
