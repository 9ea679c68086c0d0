-- ===== src/Ai/Service/Outcomes.antt =====
-- The answers of the judges and of the generated tests, with what was raised turned to values, and
-- what is concluded from them.
use codejudge_ai.Base.{
  ℕ, Bool, true, false, ◌&&◌, ◌||◌, Option, none, some, List, [], ◌∷◌, map, String, str_eq, is_some,
  length, ltb, ◌==◌, if◌then◌else◌,
}
use codejudge_ai.Base.Errors.{Error, Result, ok, raise, provider_error, os_error, ◌>>=◌}
use codejudge_ai.Base.Text.{codes, line_count}
use codejudge_ai.Ai.Models.{AiStatus, AiComponentStatus, JudgeResult, AdversarialResult}
use codejudge_ai.Ai.Scoring.{aggregate_judge_scores, calculate_ai_score}

unfoldable pub empty_adversarial : AiComponentStatus → String → AdversarialResult
empty_adversarial status reason = record {
  status = status;
  reason = some reason;
  generated = 0;
  structurally_accepted = 0;
  reference_valid = 0;
  candidate_passed = 0;
  candidate_failed = 0;
  robustness_score = none;
  tests = [];
  provider_id = none;
  model = none;
  prompt_version = none;
  prompt_hash = none;
  rendered_input_hash = none;
  provider_response_id = none;
  input_tokens = none;
  output_tokens = none;
  latency_ms = none;
  raw_response_hash = none;
}

-- `result.reason or "adversarial_unavailable"`
unfoldable pub adversarial_reason : AdversarialResult → String
adversarial_reason result = elim result.reason [
  | none ↦ "adversarial_unavailable"
  | some reason ↦ if str_eq reason "" then "adversarial_unavailable" else reason
]

-- what `one` returns for a model: a result, or the code of a ProviderError
pub data Outcome : Type 0 where
  answered : JudgeResult → Outcome
  failed : String → Outcome

unfoldable pub code_of : Error → String
code_of (provider_error code _ _) = code
code_of _ = "provider_unavailable"

unfoldable pub outcome_of : Result JudgeResult → Outcome
unfolding code_of
outcome_of (ok result) = answered result
outcome_of (raise error) = failed (code_of error)

unfoldable pub results_of : List Outcome → List JudgeResult
results_of [] = []
results_of (answered result ∷ outcomes) = result ∷ results_of outcomes
results_of (failed code ∷ outcomes) = results_of outcomes

unfoldable pub errors_of : List Outcome → List String
errors_of [] = []
errors_of (answered result ∷ outcomes) = errors_of outcomes
errors_of (failed code ∷ outcomes) = code ∷ errors_of outcomes

-- the `except` clauses of `_run_adversarial`
unfoldable pub handled : Error → AdversarialResult
unfolding empty_adversarial
handled (provider_error code _ _) = empty_adversarial AiComponentStatus.unavailable code
handled os_error = empty_adversarial AiComponentStatus.skipped "reference_unavailable"
handled _ = empty_adversarial AiComponentStatus.unavailable "adversarial_unavailable"

unfoldable pub unless_raised : Result AdversarialResult → AdversarialResult
unfolding handled
unless_raised (ok result) = result
unless_raised (raise error) = handled error

-- `len(source_text.splitlines()) or 1`
unfoldable pub source_lines : String → ℕ
unfolding line_count
source_lines source =
    let lines = line_count false false (codes source) in if lines == 0 then 1 else lines

-- the status and its reason, in the order of the tests
unfoldable pub conclusion :
    (disputed all_judges_valid adversarial_valid : Bool)
    → List JudgeResult
    → List String
    → AdversarialResult
    → AiStatus × Option String
unfolding adversarial_reason
conclusion disputed all_judges_valid adversarial_valid results errors adversarial =
    let first_reason : String = elim errors [
      | [] ↦ adversarial_reason adversarial
      | error ∷ _ ↦ error
    ] in
    if disputed
    then (AiStatus.disputed, some "judge_disagreement")
    else if all_judges_valid && adversarial_valid
    then (AiStatus.completed, none)
    else if ltb 0 (length results) || adversarial_valid
    then (AiStatus.partial, some first_reason)
    else (AiStatus.unavailable, some first_reason)

unfoldable pub score_of : JudgeResult → ℕ
score_of result = result.score

-- the score of the judges and their spread, if there is a result
unfoldable pub judgement : List JudgeResult → Result (Option (ℕ × ℕ))
unfolding score_of aggregate_judge_scores
judgement [] = ok none
judgement (result ∷ results) = do
  aggregated ← aggregate_judge_scores (map score_of (result ∷ results))
  ok (some aggregated)

abbrev pub is_completed : AiStatus → Bool
is_completed AiStatus.completed = true
is_completed _ = false

abbrev pub has_completed : AdversarialResult → Bool
has_completed result = elim result.status [
  | AiComponentStatus.completed ↦ is_some result.robustness_score
  | _ ↦ false
]

-- `calculate_ai_score`, where the status and both scores allow it
unfoldable pub ai_score_of : AiStatus → Option (ℕ × ℕ) → Option ℕ → Option ℕ
unfolding calculate_ai_score
ai_score_of AiStatus.completed (some (judge_score, spread)) (some robustness) =
    some (calculate_ai_score judge_score robustness)
ai_score_of _ _ _ = none
