-- ===== src/Ai/Scoring.antt =====
-- app/ai/scoring.py over exact decimals: scores in hundredths of a point, and the dimensions of a
-- judge in `units` parts of a point.
pub mod Bounds
use codejudge_ai.Base.{
  ℕ, zero, suc, ◌+◌, ◌-◌, ◌*◌, ◌/◌, ◌%◌, Bool, List, [], ◌∷◌, length, ltb, leb, ◌==◌, if◌then◌else◌,
}
use codejudge_ai.Base.Errors.{Result, ok, raise, value_error}
use codejudge_ai.Base.Sort.{sort}
use codejudge_ai.Evaluator.Scoring.{rounded}
use codejudge_ai.Ai.Models.{JudgeOutput}

-- `min(100.0, x)`, in a unit of which `top` are 100.0
unfoldable pub capped : ℕ → ℕ → ℕ
capped top value = if leb value top then value else top

-- The difference stops at 0, which is `max(0.0, score)`.
unfoldable pub calculate_judge_score : (units : ℕ) → JudgeOutput → ℕ
unfolding rounded capped
calculate_judge_score units output =
    let score =
      output.requirements_adherence * 30
      + 2500 * units
      + output.maintainability * 25
      + output.edge_case_coverage * 20
      - output.logic_risk * 25 in
    rounded (capped (10000 * units) score) units

unfoldable pub maximum : ℕ → List ℕ → ℕ
maximum best [] = best
maximum best (x ∷ xs) = maximum (if ltb best x then x else best) xs

unfoldable pub minimum : ℕ → List ℕ → ℕ
minimum best [] = best
minimum best (x ∷ xs) = minimum (if ltb x best then x else best) xs

unfoldable pub get_or : List ℕ → ℕ → ℕ → ℕ
get_or [] i default = default
get_or (x ∷ xs) zero default = x
get_or (x ∷ xs) (suc i) default = get_or xs i default

-- twice `statistics.median`
unfoldable pub doubled_median : List ℕ → ℕ
unfolding sort get_or
doubled_median scores =
    let ordered = sort ltb scores in
    let n = length scores in
    if n % 2 == 1
    then 2 * get_or ordered (n / 2) 0
    else get_or ordered (n / 2 - 1) 0 + get_or ordered (n / 2) 0

unfoldable pub aggregate_judge_scores : List ℕ → Result (ℕ × ℕ)
unfolding doubled_median maximum minimum rounded
aggregate_judge_scores [] = raise value_error
aggregate_judge_scores (x ∷ xs) =
    ok (rounded (doubled_median (x ∷ xs)) 2, maximum x xs - minimum x xs)

unfoldable pub calculate_ai_score : (judge_score adversarial_robustness : ℕ) → ℕ
unfolding rounded capped
calculate_ai_score judge_score adversarial_robustness =
    rounded (capped 1000000 (judge_score * 70 + adversarial_robustness * 30)) 100
