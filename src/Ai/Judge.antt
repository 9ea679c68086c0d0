-- ===== src/Ai/Judge.antt =====
-- JudgeService of app/ai/judge.py. The provider is a function of the number of the call, so that it
-- may answer the same request differently.
use codejudge_ai.Base.{ℕ, Option, none, some, map, String, leb, if◌then◌else◌, false}
use codejudge_ai.Base.Errors.{Result, ok, raise, provider_error, ◌>>=◌}
use codejudge_ai.Ai.Models.{
  JudgeFinding, JudgeOutput, Payload, StructuredLlmRequest, ProviderResponse, JudgeResult,
}
use codejudge_ai.Ai.Platform.{Platform}
use codejudge_ai.Ai.Prompts.{
  judge_prompt_version, judge_system_prompt, judge_prompt_hash, rendered_input_hash,
}
use codejudge_ai.Ai.Scoring.{calculate_judge_score}

abbrev pub Provider : Type 0
Provider = ℕ → StructuredLlmRequest → Result ProviderResponse

pub record JudgeService : Type 0 where
  pub provider_id : String
  pub max_output_tokens : ℕ
  pub temperature : String
  pub top_p : String

-- the line of a finding, if the source has it
unfoldable pub checked_line : Option ℕ → ℕ → Option ℕ
checked_line none source_line_count = none
checked_line (some line) source_line_count = if leb line source_line_count then some line else none

unfoldable pub checked_finding : ℕ → JudgeFinding → JudgeFinding
unfolding checked_line
checked_finding source_line_count finding = record finding {
  line = checked_line finding.line source_line_count;
}

module _ (p : Platform) (service : JudgeService) (model : String) (payload : Payload) where
  unfoldable pub judge_request : StructuredLlmRequest
  judge_request = record {
    component = "judge";
    model = model;
    system_prompt = judge_system_prompt;
    input_payload = payload;
    response_schema = "JudgeOutput";
    max_output_tokens = service.max_output_tokens;
    temperature = service.temperature;
    top_p = service.top_p;
  }

  unfoldable pub judged : ℕ → ProviderResponse → JudgeOutput → JudgeResult
  unfolding calculate_judge_score checked_finding judge_prompt_hash rendered_input_hash
  judged source_line_count response output = record {
    provider_id = service.provider_id;
    model = model;
    prompt_version = judge_prompt_version;
    prompt_hash = judge_prompt_hash p;
    rendered_input_hash = rendered_input_hash p payload;
    score = calculate_judge_score p.units output;
    confidence = output.confidence;
    requirements_adherence = output.requirements_adherence;
    logic_risk = output.logic_risk;
    maintainability = output.maintainability;
    edge_case_coverage = output.edge_case_coverage;
    findings = map (checked_finding source_line_count) output.findings;
    summary = output.summary;
    provider_response_id = response.response_id;
    input_tokens = response.input_tokens;
    output_tokens = response.output_tokens;
    latency_ms = response.latency_ms;
    raw_response_hash = p.sha256 response.content;
  }

  unfoldable pub judge_output : ℕ → ProviderResponse → Option JudgeOutput → Result JudgeResult
  judge_output source_line_count response none =
      raise (provider_error "malformed_output" false none)
  judge_output source_line_count response (some output) =
      ok (judged source_line_count response output)

  unfoldable pub judge : ℕ → Provider → ℕ → Result JudgeResult
  unfolding judge_output judge_request
  judge call provider source_line_count = do
    response ← provider call judge_request
    judge_output source_line_count response (p.parse_judge response.content)
