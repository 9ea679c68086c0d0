-- ===== src/Ai/Service/Identity.antt =====
-- AIService of app/ai/service.py: its settings, the identity that they make, and the record of an
-- assessment.
use codejudge_ai.Base.{
  ℕ, Bool, false, Option, none, some, List, [], map, String, if◌then◌else◌, not,
}
use codejudge_ai.Ai.Models.{
  AiStatus, RegisteredTask, EvaluationSnapshot, JudgeResult, AdversarialResult, AiIdentity,
  AiProvenance, AiAssessment,
}
use codejudge_ai.Ai.Platform.{Platform}
use codejudge_ai.Ai.Prompts.{
  judge_prompt_version, adversarial_prompt_version, ai_scoring_policy_version, judge_prompt_hash,
  adversarial_prompt_hash,
}
use codejudge_ai.Ai.Judge.{JudgeService}
use codejudge_ai.Ai.Adversarial.{AdversarialService}

pub record AiService : Type 0 where
  pub enabled : Bool
  pub has_provider : Bool
  pub provider_id : Option String
  pub judge_models : List String
  pub adversarial_model : Option String
  pub judge_service : Option JudgeService
  pub adversarial_service : Option AdversarialService
  pub max_input_bytes : ℕ
  pub max_output_tokens : ℕ
  pub temperature : String
  pub top_p : String
  pub disagreement_threshold : ℕ

unfoldable pub provenance : AiIdentity → AiProvenance
provenance i = record {
  policy_version = i.policy_version;
  judge_prompt_version = i.judge_prompt_version;
  judge_prompt_hash = i.judge_prompt_hash;
  adversarial_prompt_version = i.adversarial_prompt_version;
  adversarial_prompt_hash = i.adversarial_prompt_hash;
  provider_id = i.provider_id;
  judge_models = i.judge_models;
  adversarial_model = i.adversarial_model;
  temperature = i.temperature;
  top_p = i.top_p;
  max_output_tokens = i.max_output_tokens;
  reference_fingerprint = i.reference_fingerprint;
}

module _ (p : Platform) (service : AiService) where
  unfoldable pub reference_fingerprint : RegisteredTask → Option String
  reference_fingerprint task = elim task.reference_path [
    | none ↦ none
    | some path ↦ elim (p.read_bytes path) [ none ↦ none | some bytes ↦ some (p.sha256 bytes) ]
  ]

  unfoldable pub identity : RegisteredTask → AiIdentity
  unfolding reference_fingerprint judge_prompt_hash adversarial_prompt_hash
  identity task = record {
    enabled = service.enabled;
    policy_version = ai_scoring_policy_version;
    judge_prompt_version = judge_prompt_version;
    judge_prompt_hash = judge_prompt_hash p;
    adversarial_prompt_version = adversarial_prompt_version;
    adversarial_prompt_hash = adversarial_prompt_hash p;
    provider_id = if service.enabled then service.provider_id else none;
    judge_models = if service.enabled then service.judge_models else [];
    adversarial_model = if service.enabled then service.adversarial_model else none;
    temperature = service.temperature;
    top_p = service.top_p;
    max_output_tokens = service.max_output_tokens;
    reference_fingerprint = reference_fingerprint task;
  }

module _ (p : Platform) where
  -- `_assessment`, with the scores as it is called
  unfoldable pub assessment :
      AiStatus
      → Option String
      → EvaluationSnapshot
      → AiIdentity
      → (ai_score : Option ℕ) → (disputed : Bool) → Option (ℕ × ℕ)
      → List JudgeResult
      → Option AdversarialResult
      → AiAssessment
  unfolding provenance
  assessment status reason snapshot ai_identity ai_score disputed scores results adversarial =
      record {
        status = status;
        reason = reason;
        ai_score = ai_score;
        judge_score = elim scores [ none ↦ none | some (score, spread) ↦ some score ];
        judge_disputed = disputed;
        judge_disagreement_spread = elim scores [
          | none ↦ none
          | some (score, spread) ↦ some spread
        ];
        judge_results = results;
        adversarial_tests = adversarial;
        provenance = provenance ai_identity;
        ai_reproducibility_fingerprint = p.sha256 (
            p.artifacts_json (record {
              deterministic_reproducibility_fingerprint = snapshot.reproducibility_fingerprint;
              identity = ai_identity;
              status = status;
              reason = reason;
              judge_response_hashes = map (λ (r : JudgeResult). r.raw_response_hash) results;
              adversarial_response_hash = elim adversarial [
                | none ↦ none
                | some result ↦ result.raw_response_hash
              ];
            }));
      }

  -- an assessment that did not get to the judges
  unfoldable pub early : AiStatus → Option String → EvaluationSnapshot → AiIdentity → AiAssessment
  unfolding assessment
  early status reason snapshot ai_identity =
      assessment status reason snapshot ai_identity none false none [] none

  unfoldable pub is_mismatch : Option AiIdentity → AiIdentity → Bool
  is_mismatch none ai_identity = false
  is_mismatch (some expected) ai_identity = not (p.same_identity expected ai_identity)

abbrev pub expected_or : Option AiIdentity → AiIdentity → AiIdentity
expected_or none ai_identity = ai_identity
expected_or (some expected) ai_identity = expected
