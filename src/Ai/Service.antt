-- ===== src/Ai/Service.antt =====
-- AIService of app/ai/service.py: the judges and the generated tests, put together to an
-- assessment. Closing the provider is left out.
pub mod Identity
pub mod Outcomes
pub mod Judges
pub mod Assessment
pub mod Trust
use codejudge_ai.Base.{
  ℕ, zero, suc, Bool, true, false, not, ◌&&◌, ◌||◌, Option, none, some, List, [], ◌∷◌, map, any,
  String, str_eq, is_some, length, ltb, ◌==◌, if◌then◌else◌,
}
use codejudge_ai.Base.Errors.{Result, ok, raise, provider_error, os_error, ◌>>=◌}
use codejudge_ai.Base.Text.{codes, utf8_length, line_count}
use codejudge_ai.Ai.Models.{
  AiStatus, AiComponentStatus, Payload, judge_payload, adversarial_payload, RegisteredTask,
  EvaluationSnapshot, JudgeResult, AdversarialResult, AiIdentity, AiProvenance, AiAssessment,
}
use codejudge_ai.Ai.Platform.{Platform}
use codejudge_ai.Ai.Prompts.{
  judge_prompt_version, adversarial_prompt_version, ai_scoring_policy_version, judge_prompt_hash,
  adversarial_prompt_hash,
}
use codejudge_ai.Ai.Scoring.{aggregate_judge_scores, calculate_ai_score}
use codejudge_ai.Ai.Service.Identity.{
  is_mismatch, expected_or, AiService, identity, assessment, early,
}
use codejudge_ai.Ai.Service.Outcomes.{
  empty_adversarial, Outcome, outcome_of, results_of, errors_of, unless_raised, source_lines,
  conclusion, judgement, has_completed, ai_score_of,
}
use codejudge_ai.Ai.Judge.{Provider, JudgeService, judge}
use codejudge_ai.Ai.Adversarial.{AdversarialService, Sandbox, evaluate}

module _ (p : Platform) (service : AiService) where
  unfoldable pub too_large : Payload → Bool
  unfolding utf8_length
  too_large payload = ltb service.max_input_bytes (utf8_length (codes (p.payload_json payload)))

  module _ (provider : Provider) (sandbox : Sandbox) where
    -- the calls of the judges, numbered
    unfoldable pub run_judges : JudgeService → Payload → ℕ → ℕ → List String → List Outcome
    unfolding judge outcome_of
    run_judges judges payload line_count call [] = []
    run_judges judges payload line_count call (model ∷ models) =
        outcome_of (judge p judges model payload call provider line_count)
        ∷ run_judges judges payload line_count (suc call) models

    -- with the path of the reference and the service, where they are there
    unfoldable pub run_generated :
        RegisteredTask
        → Payload
        → String
        → Option String
        → Option AdversarialService
        → AdversarialResult
    unfolding empty_adversarial unless_raised evaluate
    run_generated task payload candidate_source none _ =
        empty_adversarial AiComponentStatus.skipped "reference_unavailable"
    run_generated task payload candidate_source (some path) none =
        empty_adversarial AiComponentStatus.skipped "sandbox_unavailable"
    run_generated task payload candidate_source (some path) (some adversarial) = unless_raised (do
      reference_source ← p.read_text path
      evaluate p adversarial payload sandbox candidate_source reference_source task.specification.id
          task.specification.timeout_seconds (length service.judge_models) provider)

    unfoldable pub run_adversarial : RegisteredTask → Payload → String → AdversarialResult
    unfolding run_generated
    run_adversarial task payload candidate_source =
        run_generated task payload candidate_source task.reference_path service.adversarial_service

    -- from the results to the assessment
    unfoldable pub conclude :
        EvaluationSnapshot
        → AiIdentity
        → List JudgeResult
        → List String
        → AdversarialResult
        → Option (ℕ × ℕ)
        → AiAssessment
    unfolding conclusion ai_score_of assessment
    conclude snapshot ai_identity results errors adversarial scores =
        let disputed : Bool = elim scores [
          | none ↦ false
          | some (score, spread) ↦ ltb service.disagreement_threshold spread
        ] in
        let all_judges_valid =
          length results == length service.judge_models && not (ltb 0 (length errors)) in
        let (status, reason) =
          conclusion disputed all_judges_valid (has_completed adversarial) results errors
            adversarial in
        assessment p status reason snapshot ai_identity
          (ai_score_of status scores adversarial.robustness_score) disputed scores results
          (some adversarial)

    -- `assess` from the check of the input on, with the judge service that is there
    unfoldable pub run_assessment :
        EvaluationSnapshot → RegisteredTask → AiIdentity → JudgeService → Result AiAssessment
    unfolding too_large early run_judges run_adversarial results_of errors_of judgement conclude
        source_lines
    run_assessment snapshot task ai_identity judges =
        let judge_input = judge_payload task.specification snapshot.evidence snapshot.source_text in
        let adversarial_input =
          adversarial_payload task.specification snapshot.evidence snapshot.source_text in
        if too_large judge_input || too_large adversarial_input
        then ok (early p AiStatus.skipped (some "input_too_large") snapshot ai_identity)
        else let outcomes =
            run_judges judges judge_input (source_lines snapshot.source_text) 0
              service.judge_models in
          let adversarial = run_adversarial task adversarial_input snapshot.source_text in
          (do
            scores ← judgement (results_of outcomes)
            ok (
                conclude snapshot ai_identity (results_of outcomes) (errors_of outcomes) adversarial
                  scores))

    unfoldable pub assess :
        EvaluationSnapshot → RegisteredTask → Option AiIdentity → Result AiAssessment
    unfolding identity early run_assessment is_mismatch
    assess snapshot task expected =
        let present = identity p service task in
        if not service.enabled
        then ok (early p AiStatus.disabled none snapshot present)
        else if is_mismatch p expected present
        then ok (
            early p AiStatus.skipped (some "ai_identity_mismatch") snapshot
              (expected_or expected present))
        else if not service.has_provider
        then ok (early p AiStatus.unavailable (some "provider_unavailable") snapshot present)
        else elim service.judge_service [
          | none ↦ ok (early p AiStatus.unavailable (some "provider_unavailable") snapshot present)
          | some judges ↦ run_assessment snapshot task present judges
        ]
