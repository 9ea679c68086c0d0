-- ===== src/Ai/Models.antt =====
-- The models of app/ai/models.py and what they hold of other models. Scores are counted in
-- hundredths of a point; the dimensions of a judge, which come from outside, in any unit that
-- divides a point (`Platform.units`). Sampling settings are never computed with, and kept as texts.
use codejudge_ai.Base.{ℕ, Bool, String, Option, List}
use codejudge_ai.Evaluator.Models.{ScoreBreakdown, TestResult, Finding, ComplexityMetrics}

pub data AiStatus : Type 0 where
  disabled completed partial unavailable disputed skipped : AiStatus

pub data AiComponentStatus : Type 0 where
  completed unavailable skipped : AiComponentStatus

pub data AiFindingSeverity : Type 0 where
  info warning error : AiFindingSeverity

pub data AiFindingCategory : Type 0 where
  requirements logic maintainability edge_case : AiFindingCategory

pub record JudgeFinding : Type 0 where
  pub severity : AiFindingSeverity
  pub category : AiFindingCategory
  pub message : String
  pub line : Option ℕ

pub record JudgeOutput : Type 0 where
  pub requirements_adherence : ℕ
  pub logic_risk : ℕ
  pub maintainability : ℕ
  pub edge_case_coverage : ℕ
  pub confidence : String
  pub findings : List JudgeFinding
  pub summary : String

-- the model Task of app/evaluator/models.py
pub record Task : Type 0 where
  pub id : String
  pub title : String
  pub description : String
  pub language : String
  pub entrypoint : Option String
  pub timeout_seconds : ℕ
  pub version : String

-- RegisteredTask of app/tasks/registry.py, with the path of its reference solution
pub record RegisteredTask : Type 0 where
  pub specification : Task
  pub reference_path : Option String

-- what the assessment reads of EvaluationSnapshot of app/snapshots/models.py
pub record Evidence : Type 0 where
  pub final_score : ℕ
  pub score_breakdown : ScoreBreakdown
  pub tests : TestResult
  pub oom_killed : Bool
  pub execution_findings : List Finding
  pub analysis_findings : List Finding
  pub complexity : Option ComplexityMetrics

pub record EvaluationSnapshot : Type 0 where
  pub evidence : Evidence
  pub source_text : String
  pub reproducibility_fingerprint : String

-- judge_payload and adversarial_payload, whose keys differ
pub data Payload : Type 0 where
  judge_payload : (task : Task) (evidence : Evidence) (candidate_source : String) → Payload
  adversarial_payload : (task : Task) (summary : Evidence) (candidate_source : String) → Payload

pub record StructuredLlmRequest : Type 0 where
  pub component : String
  pub model : String
  pub system_prompt : String
  pub input_payload : Payload
  pub response_schema : String
  pub max_output_tokens : ℕ
  pub temperature : String
  pub top_p : String

pub record ProviderResponse : Type 0 where
  pub content : String
  pub response_id : Option String
  pub input_tokens : Option ℕ
  pub output_tokens : Option ℕ
  pub latency_ms : ℕ

pub record JudgeResult : Type 0 where
  pub provider_id : String
  pub model : String
  pub prompt_version : String
  pub prompt_hash : String
  pub rendered_input_hash : String
  pub score : ℕ
  pub confidence : String
  pub requirements_adherence : ℕ
  pub logic_risk : ℕ
  pub maintainability : ℕ
  pub edge_case_coverage : ℕ
  pub findings : List JudgeFinding
  pub summary : String
  pub provider_response_id : Option String
  pub input_tokens : Option ℕ
  pub output_tokens : Option ℕ
  pub latency_ms : ℕ
  pub raw_response_hash : String

pub record GeneratedTestProposal : Type 0 where
  pub name : String
  pub rationale : String
  pub code : String

pub record AdversarialTestArtifact : Type 0 where
  pub name : String
  pub rationale : String
  pub code : String
  pub source_hash : String
  pub structurally_valid : Bool
  pub reference_valid : Bool
  pub candidate_passed : Option Bool
  pub rejection_reason : Option String

pub record AdversarialResult : Type 0 where
  pub status : AiComponentStatus
  pub reason : Option String
  pub generated : ℕ
  pub structurally_accepted : ℕ
  pub reference_valid : ℕ
  pub candidate_passed : ℕ
  pub candidate_failed : ℕ
  pub robustness_score : Option ℕ
  pub tests : List AdversarialTestArtifact
  pub provider_id : Option String
  pub model : Option String
  pub prompt_version : Option String
  pub prompt_hash : Option String
  pub rendered_input_hash : Option String
  pub provider_response_id : Option String
  pub input_tokens : Option ℕ
  pub output_tokens : Option ℕ
  pub latency_ms : Option ℕ
  pub raw_response_hash : Option String

pub record AiIdentity : Type 0 where
  pub enabled : Bool
  pub policy_version : String
  pub judge_prompt_version : String
  pub judge_prompt_hash : String
  pub adversarial_prompt_version : String
  pub adversarial_prompt_hash : String
  pub provider_id : Option String
  pub judge_models : List String
  pub adversarial_model : Option String
  pub temperature : String
  pub top_p : String
  pub max_output_tokens : ℕ
  pub reference_fingerprint : Option String

pub record AiProvenance : Type 0 where
  pub policy_version : String
  pub judge_prompt_version : String
  pub judge_prompt_hash : String
  pub adversarial_prompt_version : String
  pub adversarial_prompt_hash : String
  pub provider_id : Option String
  pub judge_models : List String
  pub adversarial_model : Option String
  pub temperature : String
  pub top_p : String
  pub max_output_tokens : ℕ
  pub reference_fingerprint : Option String

pub record AiAssessment : Type 0 where
  pub status : AiStatus
  pub reason : Option String
  pub ai_score : Option ℕ
  pub judge_score : Option ℕ
  pub judge_disputed : Bool
  pub judge_disagreement_spread : Option ℕ
  pub judge_results : List JudgeResult
  pub adversarial_tests : Option AdversarialResult
  pub provenance : AiProvenance
  pub ai_reproducibility_fingerprint : String

-- the values that `_assessment` hashes
pub record AssessmentArtifacts : Type 0 where
  pub deterministic_reproducibility_fingerprint : String
  pub identity : AiIdentity
  pub status : AiStatus
  pub reason : Option String
  pub judge_response_hashes : List String
  pub adversarial_response_hash : Option String
