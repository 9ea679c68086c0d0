-- ===== src/Evaluator/Scoring.antt =====
-- app/evaluator/scoring.py over exact decimals: a score is counted in hundredths of a point, so
-- 100.0 is 10000, and `round(x, 2)` rounds half to even. Binary floats may differ from this at a
-- tie only.
pub mod Bounds
pub mod Findings
use codejudge_ai.Base.{
  ℕ, ◌+◌, ◌-◌, ◌*◌, ◌/◌, ◌%◌, Bool, true, false, Option, none, some, List, [], ◌∷◌, filter, or_else,
  ltb, leb, ◌==◌, if◌then◌else◌,
}
use codejudge_ai.Evaluator.Models.{
  FindingSeverity, info, warning, error, FindingCategory, quality, type_safety, security,
  FindingConfidence, low, medium, high, TestResult, Finding, StaticAnalysisResult, ScoreBreakdown,
}

-- numerator / denominator, rounded half to even
unfoldable pub rounded : ℕ → ℕ → ℕ
rounded numerator denominator =
    let quotient = numerator / denominator in
    let remainder = numerator % denominator in
    if ltb (2 * remainder) denominator
    then quotient
    else if ltb denominator (2 * remainder)
    then quotient + 1
    else if quotient % 2 == 0
    then quotient
    else quotient + 1

abbrev pub quality_penalties : FindingSeverity → ℕ
quality_penalties error = 1000
quality_penalties warning = 500
quality_penalties info = 200

abbrev pub type_safety_penalties : FindingSeverity → ℕ
type_safety_penalties error = 800
type_safety_penalties warning = 400
type_safety_penalties info = 0

abbrev pub security_severity_penalties : FindingSeverity → ℕ
security_severity_penalties error = 2500
security_severity_penalties warning = 1000
security_severity_penalties info = 300

-- in hundredths
abbrev pub security_confidence_multipliers : FindingConfidence → ℕ
security_confidence_multipliers low = 50
security_confidence_multipliers medium = 75
security_confidence_multipliers high = 100

-- `max(0.0, min(100.0, 100.0 - penalty))`: below 0 the difference stops at 0 already
unfoldable pub clamped_difference : ℕ → ℕ
clamped_difference penalty = let value = 10000 - penalty in if leb value 10000 then value else 10000

unfoldable pub total_penalty : (Finding → ℕ) → List Finding → ℕ
total_penalty penalty [] = 0
total_penalty penalty (finding ∷ findings) = penalty finding + total_penalty penalty findings

abbrev pub severity_penalty : (FindingSeverity → ℕ) → Finding → ℕ
severity_penalty penalties finding = penalties finding.severity

unfoldable pub penalty_score : List Finding → (FindingSeverity → ℕ) → ℕ
penalty_score findings penalties =
    clamped_difference (total_penalty (severity_penalty penalties) findings)

-- severity times confidence, which is LOW when it is missing; the product is a whole number of
-- hundredths
abbrev pub security_penalty : Finding → ℕ
security_penalty finding =
    security_severity_penalties finding.severity
    * security_confidence_multipliers (or_else finding.confidence low)
    / 100

unfoldable pub security_score : List Finding → ℕ
security_score findings = clamped_difference (total_penalty security_penalty findings)

unfoldable pub complexity_score : ℕ → Bool → ℕ
complexity_score maximum false = 0
complexity_score maximum true =
    if leb maximum 5
    then 10000
    else if leb maximum 10
    then 9000
    else if leb maximum 15
    then 7000
    else if leb maximum 20
    then 5000
    else 2500

abbrev pub is_quality : Finding → Bool
is_quality finding = elim finding.category [ quality ↦ true | _ ↦ false ]

abbrev pub is_type_safety : Finding → Bool
is_type_safety finding = elim finding.category [ type_safety ↦ true | _ ↦ false ]

abbrev pub is_security : Finding → Bool
is_security finding = elim finding.category [ security ↦ true | _ ↦ false ]

unfoldable pub correctness_score : TestResult → ℕ
correctness_score tests = if tests.total == 0 then 0 else rounded (tests.passed * 10000) tests.total

unfoldable pub calculate_score : TestResult → Option StaticAnalysisResult → ScoreBreakdown
calculate_score tests none = record {
  correctness = correctness_score tests;
  code_quality = none;
  type_safety = none;
  security = none;
  complexity = none;
}
calculate_score tests (some analysis) = record {
  correctness = correctness_score tests;
  code_quality = some (penalty_score (filter is_quality analysis.findings) quality_penalties);
  type_safety =
      some (penalty_score (filter is_type_safety analysis.findings) type_safety_penalties);
  security = some (security_score (filter is_security analysis.findings));
  complexity = some (complexity_score analysis.complexity.maximum analysis.complexity.analyzable);
}

-- the weights are hundredths too
unfoldable pub weighted_score : ℕ → ℕ → ℕ → ℕ → ℕ → ℕ
weighted_score c q t s x = rounded (c * 60 + q * 15 + t * 10 + s * 10 + x * 5) 100

abbrev pub combine : ℕ → Option ℕ → Option ℕ → Option ℕ → Option ℕ → ℕ
combine c (some q) (some t) (some s) (some x) = weighted_score c q t s x
combine c _ _ _ _ = c

unfoldable pub calculate_final_score : ScoreBreakdown → ℕ
calculate_final_score b = combine b.correctness b.code_quality b.type_safety b.security b.complexity
