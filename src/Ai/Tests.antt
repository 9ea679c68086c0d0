-- ===== src/Ai/Tests.antt =====
-- The services of app/ai on small inputs, and the theorems about them there.
use codejudge_ai.Base.{
  ℕ, ◌+◌, ◌≤◌, ◌≡◌, ◌↔◌, refl, arith, true, false, none, some, List, [], ◌∷◌, map, All, length,
}
use codejudge_ai.Base.Errors.{ok}
use codejudge_ai.Evaluator.Models.{RunnerResult}
use codejudge_ai.Ai.Models.{
  AiComponentStatus, GeneratedTestProposal, JudgeOutput, ProviderResponse, Payload,
  adversarial_payload, Evidence, RegisteredTask, EvaluationSnapshot, AdversarialResult,
  AiAssessment,
}
use codejudge_ai.Ai.Platform.{Platform, function_def}
use codejudge_ai.Ai.Prompts.{adversarial_prompt_hash, rendered_input_hash}
use codejudge_ai.Ai.Scoring.{aggregate_judge_scores}
use codejudge_ai.Ai.Scoring.Bounds.{aggregate_judge_scores-near}
use codejudge_ai.Ai.Validation.{
  ValidationResult, rejected, validate_test, deduplicate_and_validate, total_bytes,
}
use codejudge_ai.Ai.Validation.Admission.{IsAdmissible, validate_test-accepted_iff}
use codejudge_ai.Ai.Validation.Duplicates.{Validated, AllApart, deduplicate_and_validate-AllApart}
use codejudge_ai.Ai.Judge.{Provider, JudgeService}
use codejudge_ai.Ai.Adversarial.{AdversarialService, Sandbox, reference, candidate, evaluate}
use codejudge_ai.Ai.Adversarial.Results.{IsAccounted, evaluate-IsAccounted}
use codejudge_ai.Ai.Service.Identity.{AiService}
use codejudge_ai.Ai.Service.Trust.{assess-IsTrustworthy}
use codejudge_ai.Ai.Service.Assessment.{IsTrustworthy}
use codejudge_ai.Ai.Service.{assess}

abbrev first : GeneratedTestProposal
first = record { name = "test_a"; rationale = "edge"; code = "def test_a(): pass" }

abbrev second : GeneratedTestProposal
second = record { name = "test_a"; rationale = "again"; code = "def test_a(): ..." }

abbrev judge_says : JudgeOutput
judge_says = record {
  requirements_adherence = 90;
  logic_risk = 20;
  maintainability = 80;
  edge_case_coverage = 70;
  confidence = "0.9";
  findings = [];
  summary = "good";
}

abbrev platform : Platform
platform = record {
  units = 1;
  payload_json = λ _. "{}";
  artifacts_json = λ _. "{}";
  same_identity = λ _ _. true;
  sha256 = λ s. s;
  strip = λ s. s;
  parse_judge = λ _. some judge_says;
  parse_tests = λ _. some (first ∷ second ∷ []);
  parse = λ _. some (function_def "test_a" ∷ []);
  read_bytes = λ _. some "reference";
  read_text = λ _. ok "reference";
}

abbrev response : ProviderResponse
response = record {
  content = "[]";
  response_id = none;
  input_tokens = some 3;
  output_tokens = none;
  latency_ms = 5;
}

abbrev provider : Provider
provider call request = ok response

abbrev run_of : ℕ → ℕ → RunnerResult
run_of passed failed = record {
  exit_code = some 0;
  stdout = "";
  stderr = "";
  duration = 1;
  passed = passed;
  failed = failed;
  total = passed + failed;
  timed_out = false;
  enforced_timeout = none;
  output_truncated = false;
  oom_killed = false;
  syntax_error = false;
  import_error = false;
  sandbox_error = none;
  infrastructure_error = none;
}

-- the reference passes, the candidate does not
abbrev sandbox : Sandbox
sandbox reference number solution test task timeout = ok (run_of 1 0)
sandbox candidate number solution test task timeout = ok (run_of 0 1)

abbrev generator : AdversarialService
generator = record {
  provider_id = "p";
  model = "g";
  max_tests = 4;
  max_output_tokens = 100;
  temperature = "0";
  top_p = "1";
}

abbrev judges : JudgeService
judges = record { provider_id = "p"; max_output_tokens = 100; temperature = "0"; top_p = "1" }

abbrev task : RegisteredTask
task = record {
  specification = record {
    id = "t";
    title = "t";
    description = "t";
    language = "python";
    entrypoint = none;
    timeout_seconds = 1;
    version = "1";
  };
  reference_path = some "r";
}

abbrev evidence : Evidence
evidence = record {
  final_score = 10000;
  score_breakdown = record {
    correctness = 10000;
    code_quality = none;
    type_safety = none;
    security = none;
    complexity = none;
  };
  tests = record { passed = 1; failed = 0; total = 1; duration = 1; timed_out = false };
  oom_killed = false;
  execution_findings = [];
  analysis_findings = [];
  complexity = none;
}

abbrev snapshot : EvaluationSnapshot
snapshot = record {
  evidence = evidence;
  source_text = "x = 1\n";
  reproducibility_fingerprint = "f";
}

abbrev service : AiService
service = record {
  enabled = true;
  has_provider = true;
  provider_id = some "p";
  judge_models = "a" ∷ "b" ∷ [];
  adversarial_model = some "g";
  judge_service = some judges;
  adversarial_service = some generator;
  max_input_bytes = 100;
  max_output_tokens = 100;
  temperature = "0";
  top_p = "1";
  disagreement_threshold = 1000;
}

two_scores : aggregate_judge_scores (8250 ∷ 8101 ∷ []) ≡ ok (8176, 149)
unfolding aggregate_judge_scores
two_scores = refl

aggregate_judge_scores-near_example :
    (score : ℕ) × (spread : ℕ) × (aggregate_judge_scores (8250 ∷ 8101 ∷ []) ≡ ok (score, spread))
    × All (λ s. (s ≤ score + spread) × (score ≤ s + spread)) (8250 ∷ 8101 ∷ [])
    × (score ≤ 10000)
    × (spread ≤ 10000)
aggregate_judge_scores-near_example = aggregate_judge_scores-near 8250 (8101 ∷ []) (omega arith)

validate_test-accepted_iff_example :
    ((validate_test platform first).accepted ≡ true) ↔ IsAdmissible platform first
validate_test-accepted_iff_example = validate_test-accepted_iff platform first

abbrev accepted : ValidationResult
accepted = record { accepted = true; reason = none }

abbrev both : List Validated
both = (first, accepted) ∷ (second, rejected "duplicate_test") ∷ []

validated_both : deduplicate_and_validate platform (first ∷ second ∷ []) 4 ≡ (none, both)
unfolding deduplicate_and_validate validate_test
validated_both = refl

deduplicate_and_validate-AllApart_example :
    (length (first ∷ second ∷ []) ≤ 4)
    × (total_bytes (first ∷ second ∷ []) ≤ 65536)
    × (map (λ (x : Validated). x.0) both ≡ first ∷ second ∷ [])
    × All (λ x. x.1.accepted ≡ true → (validate_test platform x.0).accepted ≡ true) both
    × AllApart platform both
deduplicate_and_validate-AllApart_example =
    deduplicate_and_validate-AllApart platform (first ∷ second ∷ []) 4 both validated_both

abbrev payload : Payload
payload = adversarial_payload task.specification evidence "x = 1\n"

-- One test is a duplicate, and the candidate fails the other.
abbrev evaluated : AdversarialResult
evaluated = record {
  status = AiComponentStatus.completed;
  reason = none;
  generated = 2;
  structurally_accepted = 1;
  reference_valid = 1;
  candidate_passed = 0;
  candidate_failed = 1;
  robustness_score = some 0;
  tests =
      record {
        name = "test_a";
        rationale = "edge";
        code = "def test_a(): pass";
        source_hash = "def test_a(): pass";
        structurally_valid = true;
        reference_valid = true;
        candidate_passed = some false;
        rejection_reason = some "candidate_failed";
      }
      ∷ record {
        name = "test_a";
        rationale = "again";
        code = "def test_a(): ...";
        source_hash = "def test_a(): ...";
        structurally_valid = false;
        reference_valid = false;
        candidate_passed = none;
        rejection_reason = some "duplicate_test";
      }
      ∷ [];
  provider_id = some "p";
  model = some "g";
  prompt_version = some "1";
  prompt_hash = some (adversarial_prompt_hash platform);
  rendered_input_hash = some (rendered_input_hash platform payload);
  provider_response_id = none;
  input_tokens = some 3;
  output_tokens = none;
  latency_ms = some 5;
  raw_response_hash = some "[]";
}

evaluate_both :
    evaluate platform generator payload sandbox "candidate" "reference" "t" 1 2 provider
    ≡ ok evaluated
unfolding evaluate deduplicate_and_validate validate_test adversarial_prompt_hash
    rendered_input_hash
evaluate_both = refl

evaluate-IsAccounted_example : IsAccounted evaluated
evaluate-IsAccounted_example =
    evaluate-IsAccounted platform generator payload sandbox "candidate" "reference" "t" 1 2 provider
      evaluated evaluate_both

assess-IsTrustworthy_example :
    (a : AiAssessment) × (assess platform service provider sandbox snapshot task none ≡ ok a)
    × IsTrustworthy service a
assess-IsTrustworthy_example =
    assess-IsTrustworthy platform service provider sandbox (omega arith) (omega arith) snapshot task
      none
