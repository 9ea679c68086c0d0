-- ===== src/Ai/Adversarial.antt =====
-- AdversarialService of app/ai/adversarial.py: generated tests that the reference solution passes
-- are run on the candidate. The sandbox is a function of the number of the test, so that it may
-- answer the same run differently, and it may raise.
pub mod Accounts
pub mod Results
use Prim.Native.String.{◌++◌ as append}
use codejudge_ai.Base.{
  ℕ, zero, suc, ◌+◌, ◌-◌, ◌*◌, ◌/◌, ◌%◌, Bool, true, false, not, ◌&&◌, ◌||◌, Option, none, some,
  List, [], ◌∷◌, ◌++◌, map, String, is_some, length, ltb, leb, ◌==◌, if◌then◌else◌,
}
use codejudge_ai.Base.Errors.{Result, ok, raise, provider_error, ◌>>=◌}
use codejudge_ai.Evaluator.Models.{RunnerResult}
use codejudge_ai.Evaluator.Scoring.{rounded}
use codejudge_ai.Ai.Models.{
  AiComponentStatus, GeneratedTestProposal, Payload, StructuredLlmRequest, ProviderResponse,
  AdversarialTestArtifact, AdversarialResult,
}
use codejudge_ai.Ai.Platform.{Platform}
use codejudge_ai.Ai.Prompts.{
  adversarial_prompt_version, adversarial_system_prompt, adversarial_prompt_hash,
  rendered_input_hash,
}
use codejudge_ai.Ai.Judge.{Provider}
use codejudge_ai.Ai.Validation.{ValidationResult, deduplicate_and_validate}

pub record AdversarialService : Type 0 where
  pub provider_id : String
  pub model : String
  pub max_tests : ℕ
  pub max_output_tokens : ℕ
  pub temperature : String
  pub top_p : String

-- whose source a run is for
pub data Role : Type 0 where
  reference candidate : Role

abbrev pub Sandbox : Type 0
Sandbox =
    (role : Role) (number : ℕ) (solution_source test_source task_id : String) (timeout_seconds : ℕ)
    → Result RunnerResult

unfoldable pub successful_test_run : RunnerResult → Bool
successful_test_run r =
    not (is_some r.infrastructure_error)
    && not (is_some r.sandbox_error)
    && not r.timed_out
    && not r.oom_killed
    && not r.syntax_error
    && not r.import_error
    && ltb 0 r.total
    && r.failed == 0
    && r.passed == r.total

unfoldable pub run_rejection_reason : RunnerResult → String → String
run_rejection_reason r prefix =
    if is_some r.infrastructure_error
    then append prefix "_infrastructure_unavailable"
    else if r.timed_out
    then append prefix "_timeout"
    else if r.oom_killed
    then append prefix "_oom"
    else if r.syntax_error || r.import_error || is_some r.sandbox_error
    then append prefix "_invalid_test"
    else append prefix "_failed"

-- the counters of `evaluate` and its artifacts
pub record Tally : Type 0 where
  pub structurally_accepted : ℕ
  pub reference_valid : ℕ
  pub candidate_passed : ℕ
  pub tests : List AdversarialTestArtifact

-- the loop goes on, or returns as the sandbox broke
pub data Progress : Type 0 where
  running : Tally → Progress
  sandbox_unavailable : Tally → Progress

unfoldable pub add : Tally → AdversarialTestArtifact → Tally
add t a = record t { tests = t.tests ++ a ∷ [] }

module _ (p : Platform) (proposal : GeneratedTestProposal) where
  unfoldable pub artifact :
      (structurally_valid reference_valid : Bool)
      → Option Bool
      → Option String
      → AdversarialTestArtifact
  artifact structurally_valid reference_valid candidate_passed rejection_reason = record {
    name = proposal.name;
    rationale = proposal.rationale;
    code = proposal.code;
    source_hash = p.sha256 proposal.code;
    structurally_valid = structurally_valid;
    reference_valid = reference_valid;
    candidate_passed = candidate_passed;
    rejection_reason = rejection_reason;
  }

  unfoldable pub after_candidate : Tally → RunnerResult → Progress
  unfolding successful_test_run run_rejection_reason artifact add
  after_candidate t r =
      let candidate_ok = successful_test_run r in
      if is_some r.infrastructure_error
      then sandbox_unavailable t
      else running (
          add (record t { candidate_passed = t.candidate_passed + (if candidate_ok then 1 else 0) })
            (artifact true true (some candidate_ok)
              (if candidate_ok then none else some (run_rejection_reason r "candidate"))))

  module _ (sandbox : Sandbox) (number : ℕ) (candidate_source reference_source task_id : String)
      (timeout_seconds : ℕ) where
    unfoldable pub after_reference : Tally → RunnerResult → Result Progress
    unfolding successful_test_run run_rejection_reason artifact add after_candidate
    after_reference t r =
        if successful_test_run r
        then (do
          run ← sandbox candidate number candidate_source proposal.code task_id timeout_seconds
          ok (after_candidate (record t { reference_valid = t.reference_valid + 1 }) run))
        else ok
            (running (add t (artifact true false none (some (run_rejection_reason r "reference")))))

    -- one round of the loop
    unfoldable pub run_test : Tally → ValidationResult → Result Progress
    unfolding artifact add after_reference
    run_test t structural =
        if structural.accepted
        then (do
          run ← sandbox reference number reference_source proposal.code task_id timeout_seconds
          after_reference (record t { structurally_accepted = t.structurally_accepted + 1 }) run)
        else ok (running (add t (artifact false false none structural.reason)))

-- the next round, unless the sandbox broke
unfoldable pub next_round : (Tally → Result Progress) → Progress → Result Progress
next_round continue_with (running t) = continue_with t
next_round continue_with (sandbox_unavailable t) = ok (sandbox_unavailable t)

module _ (p : Platform) (sandbox : Sandbox) (candidate_source reference_source task_id : String)
    (timeout_seconds : ℕ) where
  unfoldable pub run_tests :
      ℕ → Tally → List (GeneratedTestProposal × ValidationResult) → Result Progress
  unfolding run_test next_round
  run_tests number t [] = ok (running t)
  run_tests number t ((proposal, structural) ∷ rest) = do
    progress ←
        run_test p proposal sandbox number candidate_source reference_source task_id timeout_seconds
          t structural
    next_round (λ t'. run_tests (suc number) t' rest) progress

abbrev pub no_tests : Tally
no_tests = record {
  structurally_accepted = 0;
  reference_valid = 0;
  candidate_passed = 0;
  tests = [];
}

unfoldable pub robustness_of : Tally → Option ℕ
unfolding rounded
robustness_of t =
    if t.reference_valid == 0
    then none
    else some (rounded (t.candidate_passed * 10000) t.reference_valid)

module _ (p : Platform) (service : AdversarialService) (payload : Payload) where
  unfoldable pub adversarial_request : StructuredLlmRequest
  adversarial_request = record {
    component = "adversarial";
    model = service.model;
    system_prompt = adversarial_system_prompt;
    input_payload = payload;
    response_schema = "GeneratedTestsOutput";
    max_output_tokens = service.max_output_tokens;
    temperature = service.temperature;
    top_p = service.top_p;
  }

  -- the fields that the two results share
  unfoldable pub result_of :
      ProviderResponse
      → ℕ
      → Tally
      → AiComponentStatus
      → Option String
      → ℕ
      → Option ℕ
      → AdversarialResult
  unfolding adversarial_prompt_hash rendered_input_hash
  result_of response generated t status reason candidate_failed robustness = record {
    status = status;
    reason = reason;
    generated = generated;
    structurally_accepted = t.structurally_accepted;
    reference_valid = t.reference_valid;
    candidate_passed = t.candidate_passed;
    candidate_failed = candidate_failed;
    robustness_score = robustness;
    tests = t.tests;
    provider_id = some service.provider_id;
    model = some service.model;
    prompt_version = some adversarial_prompt_version;
    prompt_hash = some (adversarial_prompt_hash p);
    rendered_input_hash = some (rendered_input_hash p payload);
    provider_response_id = response.response_id;
    input_tokens = response.input_tokens;
    output_tokens = response.output_tokens;
    latency_ms = some response.latency_ms;
    raw_response_hash = some (p.sha256 response.content);
  }

  unfoldable pub counted : ProviderResponse → ℕ → Progress → AdversarialResult
  unfolding result_of robustness_of
  counted response generated (sandbox_unavailable t) =
      result_of response generated t AiComponentStatus.unavailable
        (some "adversarial_sandbox_unavailable") (t.reference_valid - t.candidate_passed - 1) none
  counted response generated (running t) =
      let robustness = robustness_of t in
      result_of response generated t
        (if is_some robustness then AiComponentStatus.completed else AiComponentStatus.unavailable)
        (if is_some robustness then none else some "no_valid_adversarial_tests")
        (t.reference_valid - t.candidate_passed) robustness

  module _ (sandbox : Sandbox) (candidate_source reference_source task_id : String)
      (timeout_seconds : ℕ) where
    -- the validated tests, or the message of the ValueError
    unfoldable pub run_validated :
        ProviderResponse
        → ℕ
        → Option String × List (GeneratedTestProposal × ValidationResult)
        → Result AdversarialResult
    unfolding run_tests counted
    run_validated response generated (some message, _) = raise (provider_error message false none)
    run_validated response generated (none, validated) = do
      progress ←
          run_tests p sandbox candidate_source reference_source task_id timeout_seconds 0 no_tests
            validated
      ok (counted response generated progress)

    unfoldable pub run_output :
        ProviderResponse → Option (List GeneratedTestProposal) → Result AdversarialResult
    unfolding run_validated
    run_output response none = raise (provider_error "malformed_output" false none)
    run_output response (some proposals) =
        run_validated response (length proposals)
          (deduplicate_and_validate p proposals service.max_tests)

    unfoldable pub evaluate : ℕ → Provider → Result AdversarialResult
    unfolding run_output adversarial_request
    evaluate call provider = do
      response ← provider call adversarial_request
      run_output response (p.parse_tests response.content)
