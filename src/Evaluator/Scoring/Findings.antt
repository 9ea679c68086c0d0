-- ===== src/Evaluator/Scoring/Findings.antt =====
-- How the findings enter the score: in any order, and never to its advantage.
use codejudge_ai.Base.{
  ℕ, ◌≤◌, ◌+◌, ◌≡◌, refl, ap, ◌∙◌, arith, some, Bool, List, ◌∷◌, filter, if◌then◌else◌,
}
use codejudge_ai.Evaluator.Models.{Finding, ComplexityMetrics, TestResult, StaticAnalysisResult}
use codejudge_ai.Evaluator.Scoring.Bounds.{weighted_score-le_weighted_score}
use codejudge_ai.Evaluator.Scoring.{
  total_penalty, clamped_difference, penalty_score, security_score, severity_penalty,
  security_penalty, is_quality, is_type_safety, is_security, quality_penalties,
  type_safety_penalties, calculate_score, calculate_final_score,
}
use mathlib.Core.List.{Permᴰ}

module _ (p : Finding → Bool) (penalty : Finding → ℕ) where
  -- what a finding adds to the penalty of a dimension
  abbrev share : Finding → ℕ
  share finding = if p finding then penalty finding else 0

  total-filter :
      (finding : Finding) (findings : List Finding)
      → total_penalty penalty (filter p (finding ∷ findings))
        ≡ share finding + total_penalty penalty (filter p findings)
  unfolding total_penalty filter
  total-filter finding findings = ground arith

  pub total-filter-le :
      (finding : Finding) (findings : List Finding)
      → total_penalty penalty (filter p findings)
        ≤ total_penalty penalty (filter p (finding ∷ findings))
  total-filter-le finding findings = omega (arith, total-filter finding findings)

  pub total-filter-Permᴰ :
      {findings findings' : List Finding}
      → Permᴰ findings findings'
      → total_penalty penalty (filter p findings) ≡ total_penalty penalty (filter p findings')
  total-filter-Permᴰ Permᴰ.nil = refl
  total-filter-Permᴰ (Permᴰ.cons {a = a} {b = b} {l₁ = l} {l₂ = m} e q) =
      omega (arith, total-filter a l, total-filter b m, ap share e, total-filter-Permᴰ q)
  total-filter-Permᴰ (Permᴰ.swap {a = a} {b = b} {a' = a'} {b' = b'} {l = l} e f) = omega (
    arith,
    total-filter a (b ∷ l),
    total-filter b l,
    total-filter a' (b' ∷ l),
    total-filter b' l,
    ap share e,
    ap share f,
  )
  total-filter-Permᴰ (Permᴰ.trans q r) = total-filter-Permᴰ q ∙ total-filter-Permᴰ r

clamped_difference-le_clamped_difference :
    (a b : ℕ) → a ≤ b → clamped_difference b ≤ clamped_difference a
unfolding clamped_difference
clamped_difference-le_clamped_difference a b h = ground arith

module _ (tests : TestResult) (complexity : ComplexityMetrics) where
  abbrev pub found : List Finding → StaticAnalysisResult
  found findings = record { findings = findings; complexity = complexity }

  -- The scores do not depend on the order of the findings.
  pub calculate_score-Permᴰ :
      {findings findings' : List Finding}
      → Permᴰ findings findings'
      → calculate_score tests (some (found findings))
        ≡ calculate_score tests (some (found findings'))
  unfolding calculate_score penalty_score security_score
  calculate_score-Permᴰ q = rw (
    total-filter-Permᴰ is_quality (severity_penalty quality_penalties) q,
    total-filter-Permᴰ is_type_safety (severity_penalty type_safety_penalties) q,
    total-filter-Permᴰ is_security security_penalty q,
  )

  -- One more finding, of any category, severity and confidence, never raises the final score.
  pub finding_never_raises :
      (finding : Finding) (findings : List Finding)
      → calculate_final_score (calculate_score tests (some (found (finding ∷ findings))))
        ≤ calculate_final_score (calculate_score tests (some (found findings)))
  unfolding calculate_score calculate_final_score penalty_score security_score
  finding_never_raises finding findings =
      weighted_score-le_weighted_score _ _ _ _ _ _ _ _
        (clamped_difference-le_clamped_difference _ _
          (total-filter-le is_quality (severity_penalty quality_penalties) finding findings))
        (clamped_difference-le_clamped_difference _ _ (
          total-filter-le is_type_safety (severity_penalty type_safety_penalties) finding findings))
        (clamped_difference-le_clamped_difference _ _
          (total-filter-le is_security security_penalty finding findings))
