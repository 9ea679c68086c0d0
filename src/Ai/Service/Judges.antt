-- ===== src/Ai/Service/Judges.antt =====
-- What the judges and the generated tests answer, whatever the provider and the sandbox do.
use mathlib.Core.Path.{subst}
use codejudge_ai.Base.{
  ℕ, suc, ◌+◌, ◌≤◌, ◌<◌, ◌≡◌, refl, arith, false, inl, inr, Option, none, some, List, [], ◌∷◌, map,
  All, count, length, String, Bool-cases, leb, leb→le,
}
use codejudge_ai.Base.Errors.{
  Result, ok, raise, ◌>>=◌, >>=-eq-ok, ok-injective, provider_error, os_error,
}
use codejudge_ai.Ai.Models.{
  JudgeFinding, JudgeOutput, JudgeResult, ProviderResponse, Payload, AdversarialResult,
  RegisteredTask, AiComponentStatus,
}
use codejudge_ai.Ai.Platform.{Platform}
use codejudge_ai.Ai.Scoring.Bounds.{calculate_judge_score-le}
use codejudge_ai.Ai.Judge.{
  Provider, JudgeService, judge, judge_request, judge_output, judged, checked_finding, checked_line,
}
use codejudge_ai.Ai.Adversarial.{AdversarialService, Sandbox, evaluate}
use codejudge_ai.Ai.Adversarial.Results.{IsAccounted, is_finished, evaluate-IsAccounted}
use codejudge_ai.Ai.Service.Identity.{AiService}
use codejudge_ai.Ai.Service.Outcomes.{
  Outcome, answered, failed, outcome_of, results_of, errors_of, empty_adversarial, unless_raised,
}
use codejudge_ai.Ai.Service.{run_judges, run_generated, run_adversarial}

-- no line, or one of the source
abbrev pub LineWithin : ℕ → Option ℕ → Type 0
LineWithin line_count none = Unit {0}
LineWithin line_count (some line) = line ≤ line_count

abbrev pub HasLineWithin : ℕ → JudgeFinding → Type 0
HasLineWithin line_count finding = LineWithin line_count finding.line

abbrev pub IsInBounds : ℕ → JudgeResult → Type 0
IsInBounds line_count r = (r.score ≤ 10000) × All (HasLineWithin line_count) r.findings

checked_line-within :
    (line : Option ℕ) (line_count : ℕ) → LineWithin line_count (checked_line line line_count)
unfolding checked_line
checked_line-within none line_count = tt
checked_line-within (some line) line_count = elim (Bool-cases (leb line line_count)) [
  | inl h ↦ rw h (leb→le line line_count h)
  | inr h ↦ rw h tt
]

checked_findings-within :
    (line_count : ℕ) (findings : List JudgeFinding)
    → All (HasLineWithin line_count) (map (checked_finding line_count) findings)
unfolding checked_finding
checked_findings-within line_count [] = tt
checked_findings-within line_count (finding ∷ findings) =
    (checked_line-within finding.line line_count, checked_findings-within line_count findings)

module _ (p : Platform) (positive : 0 < p.units) (judges : JudgeService) (payload : Payload)
    (line_count : ℕ) where
  judge_output-IsInBounds :
      (model : String) (response : ProviderResponse) (parsed : Option JudgeOutput) (r : JudgeResult)
      → judge_output p judges model payload line_count response parsed ≡ ok r
      → IsInBounds line_count r
  unfolding judge_output judged
  judge_output-IsInBounds model response none r e = absurd (cc)
  judge_output-IsInBounds model response (some output) r e =
      subst (IsInBounds line_count)
        (ok-injective (judged p judges model payload line_count response output) r e)
        (
          calculate_judge_score-le p.units output positive,
          checked_findings-within line_count output.findings,
        )

  judge-IsInBounds :
      (model : String) (call : ℕ) (provider : Provider) (r : JudgeResult)
      → judge p judges model payload call provider line_count ≡ ok r
      → IsInBounds line_count r
  unfolding judge
  judge-IsInBounds model call provider r e =
      let output = λ (response : ProviderResponse).
        judge_output p judges model payload line_count response (p.parse_judge response.content) in
      let found = >>=-eq-ok (provider call (judge_request p judges model payload)) output e in
      judge_output-IsInBounds model found.0 (p.parse_judge found.0.content) r found.2

  -- one more outcome, which is a result in bounds or none at all
  results_of-IsInBounds :
      (answer : Result JudgeResult) (outcomes : List Outcome)
      → ((r : JudgeResult) → answer ≡ ok r → IsInBounds line_count r)
      → All (IsInBounds line_count) (results_of outcomes)
      → All (IsInBounds line_count) (results_of (outcome_of answer ∷ outcomes))
  unfolding results_of outcome_of
  results_of-IsInBounds (ok r) outcomes f h = (f r refl, h)
  results_of-IsInBounds (raise e) outcomes f h = h

  module _ (service : AiService) (provider : Provider) (sandbox : Sandbox) where
    pub run_judges-IsInBounds :
        (models : List String) (call : ℕ)
        → All (IsInBounds line_count) (
            results_of
              (run_judges p service provider sandbox judges payload line_count call models))
    unfolding run_judges results_of
    run_judges-IsInBounds [] call = tt
    run_judges-IsInBounds (model ∷ models) call =
        results_of-IsInBounds (judge p judges model payload call provider line_count)
          (run_judges p service provider sandbox judges payload line_count (suc call) models)
          (judge-IsInBounds model call provider) (run_judges-IsInBounds models (suc call))

-- Every outcome is a result or an error.
pub results-errors :
    (outcomes : List Outcome)
    → length (results_of outcomes) + length (errors_of outcomes) ≡ length outcomes
unfolding results_of errors_of
results-errors [] = omega arith
results-errors (answered result ∷ outcomes) = omega (arith, results-errors outcomes)
results-errors (failed code ∷ outcomes) = omega (arith, results-errors outcomes)

empty_adversarial-IsAccounted :
    (status : AiComponentStatus) (reason : String)
    → is_finished status ≡ false
    → IsAccounted (empty_adversarial status reason)
unfolding empty_adversarial count
empty_adversarial-IsAccounted status reason h = record {
  passed = refl;
  failed = refl;
  within = omega arith;
  nested = omega arith;
  bounded = omega arith;
  concluded = (h, refl);
}

unless_raised-IsAccounted :
    (answer : Result AdversarialResult)
    → ((r : AdversarialResult) → answer ≡ ok r → IsAccounted r)
    → IsAccounted (unless_raised answer)
unfolding unless_raised
unless_raised-IsAccounted (ok r) f = f r refl
unless_raised-IsAccounted (raise (provider_error code transient detail_code)) f =
    empty_adversarial-IsAccounted AiComponentStatus.unavailable code refl
unless_raised-IsAccounted (raise os_error) f =
    empty_adversarial-IsAccounted AiComponentStatus.skipped "reference_unavailable" refl
unless_raised-IsAccounted (raise _) f =
    empty_adversarial-IsAccounted AiComponentStatus.unavailable "adversarial_unavailable" refl

module _ (p : Platform) (service : AiService) (provider : Provider) (sandbox : Sandbox)
    (task : RegisteredTask) (payload : Payload) (candidate_source : String) where
  run_generated-IsAccounted :
      (path : Option String) (adversarial : Option AdversarialService)
      → IsAccounted
          (run_generated p service provider sandbox task payload candidate_source path adversarial)
  unfolding run_generated
  run_generated-IsAccounted none _ =
      empty_adversarial-IsAccounted AiComponentStatus.skipped "reference_unavailable" refl
  run_generated-IsAccounted (some path) none =
      empty_adversarial-IsAccounted AiComponentStatus.skipped "sandbox_unavailable" refl
  run_generated-IsAccounted (some path) (some adversarial) =
      let run = λ (reference_source : String).
        evaluate p adversarial payload sandbox candidate_source reference_source
          task.specification.id task.specification.timeout_seconds (length service.judge_models)
          provider in
      unless_raised-IsAccounted (p.read_text path >>= run) (λ r e.
        let found = >>=-eq-ok (p.read_text path) run e in
        evaluate-IsAccounted p adversarial payload sandbox candidate_source found.0
          task.specification.id task.specification.timeout_seconds (length service.judge_models)
          provider r found.2)

  pub run_adversarial-IsAccounted :
      IsAccounted (run_adversarial p service provider sandbox task payload candidate_source)
  unfolding run_adversarial
  run_adversarial-IsAccounted =
      run_generated-IsAccounted task.reference_path service.adversarial_service
