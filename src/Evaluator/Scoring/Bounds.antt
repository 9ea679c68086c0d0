-- ===== src/Evaluator/Scoring/Bounds.antt =====
-- Every score is between 0 and 100.
use codejudge_ai.Base.{
  ℕ, ◌≤◌, ◌<◌, ◌*◌, ◌/◌, ◌%◌, ◌≡◌, arith, ◌⊎◌, inl, inr, Option, none, some, Bool, true, false,
  List,
}
use codejudge_ai.Evaluator.Models.{
  Finding, FindingSeverity, TestResult, StaticAnalysisResult, ScoreBreakdown,
}
use codejudge_ai.Evaluator.Scoring.{
  rounded, clamped_difference, penalty_score, security_score, complexity_score, correctness_score,
  calculate_score, weighted_score, calculate_final_score,
}
use native.Mathlib.Decide.{dec_lt}
use native.Mathlib.Nat.{div-add-mod', mul-le-mul_right, le_of_mul-le-mul_right, div-mul-le_self}

-- A quotient that reaches the bound leaves no remainder.
remainder-zero : (n m d : ℕ) → 0 < d → n ≤ m * d → (n / d < m) ⊎ ((n / d ≡ m) × (n % d ≡ 0))
remainder-zero n m d p h =
    let top : n / d ≤ m = le_of_mul-le-mul_right (omega (arith, div-mul-le_self n d, h)) p in
    elim (dec_lt (n / d) m) [
      | yes lower ↦ inl lower
      | no high ↦
          let same : n / d ≡ m = omega arith in
          let above : m ≤ n / d = omega arith in
          inr (same, omega (arith, div-add-mod' n d, mul-le-mul_right d above))
    ]

pub rounded-le : (n m d : ℕ) → 0 < d → n ≤ m * d → rounded n d ≤ m
unfolding rounded
rounded-le n m d p h = elim (remainder-zero n m d p h) [
  | inl lower ↦ ground arith
  | inr (same, none_left) ↦ ground arith
]

pub clamped_difference-le : (penalty : ℕ) → clamped_difference penalty ≤ 10000
unfolding clamped_difference
clamped_difference-le penalty = ground arith

pub complexity_score-le :
    (maximum : ℕ) (analyzable : Bool) → complexity_score maximum analyzable ≤ 10000
unfolding complexity_score
complexity_score-le maximum false = ground arith
complexity_score-le maximum true = ground arith

pub weighted_score-le :
    (c q t s x : ℕ)
    → c ≤ 10000
    → q ≤ 10000
    → t ≤ 10000
    → s ≤ 10000
    → x ≤ 10000
    → weighted_score c q t s x ≤ 10000
unfolding weighted_score rounded
weighted_score-le c q t s x c' q' t' s' x' = ground arith

pub weighted_score-le_weighted_score :
    (c q t s x q' t' s' : ℕ)
    → q ≤ q'
    → t ≤ t'
    → s ≤ s'
    → weighted_score c q t s x ≤ weighted_score c q' t' s' x
unfolding weighted_score rounded
weighted_score-le_weighted_score c q t s x q' t' s' h i j = ground arith

pub penalty_score-le :
    (findings : List Finding) (penalties : FindingSeverity → ℕ)
    → penalty_score findings penalties ≤ 10000
unfolding penalty_score
penalty_score-le findings penalties = clamped_difference-le _

pub security_score-le : (findings : List Finding) → security_score findings ≤ 10000
unfolding security_score
security_score-le findings = clamped_difference-le _

pub correctness_score-le :
    (tests : TestResult) → tests.passed ≤ tests.total → correctness_score tests ≤ 10000
unfolding correctness_score
correctness_score-le tests h = ground (arith, rounded-le (tests.passed * 10000) 10000 tests.total)

-- every number of a breakdown is in range
abbrev Within : Option ℕ → Type 0
Within score = elim score [ none ↦ Unit {0} | some s ↦ s ≤ 10000 ]

abbrev pub InRange : ScoreBreakdown → Type 0
InRange b =
    (b.correctness ≤ 10000)
    × Within b.code_quality
    × Within b.type_safety
    × Within b.security
    × Within b.complexity

pub calculate_score-InRange :
    (tests : TestResult) (analysis : Option StaticAnalysisResult)
    → tests.passed ≤ tests.total
    → InRange (calculate_score tests analysis)
unfolding calculate_score
calculate_score-InRange tests none h = (correctness_score-le tests h, tt, tt, tt, tt)
calculate_score-InRange tests (some analysis) h = (
  correctness_score-le tests h,
  penalty_score-le _ _,
  penalty_score-le _ _,
  security_score-le _,
  complexity_score-le _ _,
)

pub calculate_final_score-le : (b : ScoreBreakdown) → InRange b → calculate_final_score b ≤ 10000
unfolding calculate_final_score
calculate_final_score-le b h = grind (arith, weighted_score-le)

-- When no more tests passed than there are, every dimension of the score and the final score are at
-- most 100, whatever the analysis found.
pub scores_bounded :
    (tests : TestResult) (analysis : Option StaticAnalysisResult)
    → tests.passed ≤ tests.total
    → InRange (calculate_score tests analysis)
      × (calculate_final_score (calculate_score tests analysis) ≤ 10000)
scores_bounded tests analysis h =
    let r = calculate_score-InRange tests analysis h in (r, calculate_final_score-le _ r)
