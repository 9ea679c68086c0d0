-- ===== src/Benchmarks/Generation.antt =====
-- `_generate` of app/benchmarks/worker.py with app/benchmarks/prompts.py and
-- app/benchmarks/pricing.py: one request to a provider, and the artifact made of its answer.
pub mod Artifacts
use Prim.Native.String.{◌++◌ as append}
use codejudge_ai.Base.{ℕ, ◌+◌, ◌*◌, false, Option, none, some, String, str_eq, ltb}
use codejudge_ai.Base.Errors.{Result, ok, raise, raise_if, ◌>>=◌, ◌>>◌, provider_error}
use codejudge_ai.Base.Text.{codes, utf8_length}
use codejudge_ai.Ai.Models.{Task, ProviderResponse}
use codejudge_ai.Evaluator.Scoring.{rounded}
use codejudge_ai.Benchmarks.Model.{BenchmarkSample, GeneratedSolutionArtifact, sample_key}

pub data GenerationOutputMode : Type 0 where
  structured_json raw_source : GenerationOutputMode

-- costs in `units` parts of the currency
pub record PricingSnapshot : Type 0 where
  pub pricing_version : String
  pub units : ℕ
  pub input_cost_per_million_tokens : ℕ
  pub output_cost_per_million_tokens : ℕ
  pub currency : String

pub record BenchmarkModelConfig : Type 0 where
  pub model_config_id : ℕ
  pub provider_id : String
  pub model : String
  pub temperature : String
  pub top_p : String
  pub max_output_tokens : ℕ
  pub seed : Option ℕ
  pub output_mode : GenerationOutputMode
  pub pricing : Option PricingSnapshot

-- coding_payload: the public task, and the output that is asked for
pub record CodingPayload : Type 0 where
  pub public_task : Task
  pub language : String
  pub format : String
  pub coding_prompt_version : String

pub record StructuredLlmRequest : Type 0 where
  pub component : String
  pub model : String
  pub system_prompt : String
  pub input_payload : CodingPayload
  pub response_schema : String
  pub max_output_tokens : ℕ
  pub temperature : String
  pub top_p : String
  pub seed : Option ℕ

-- LLMProvider, as it answers the requests of one attempt
pub record LlmProvider : Type 0 where
  pub complete_structured : StructuredLlmRequest → Result ProviderResponse
  pub complete_raw_source : StructuredLlmRequest → Result ProviderResponse

-- `parse_coding` is json.loads with CodingOutput.model_validate, where none is a JSONDecodeError or
-- a ValidationError.
pub record Tools : Type 0 where
  pub sha256 : String → String
  pub strip : String → String
  pub parse_coding : String → Option String

abbrev pub coding_prompt_version : String
coding_prompt_version = "2"

unfoldable pub coding_system_prompt : GenerationOutputMode → String
coding_system_prompt structured_json =
    append "You are solving a public coding benchmark task. Return only structured\n" (
      append
        "data matching the supplied schema, with language set to python and source containing the complete\n"
        (append
          "candidate module. Do not use Markdown fences. Do not request hidden tests, reference solutions,\n"
          (append
            "evaluator metadata, tools, host access, credentials, or network access. The candidate will execute\n"
            ("as untrusted code in a restricted sandbox."))))
coding_system_prompt raw_source =
    append "You are solving a public coding benchmark task. Return only\n" (
      append
        "valid Python source code as the exact assistant message content. Do not include Markdown fences.\n"
        (append
          "Do not include explanation. Do not include JSON. Do not include prose before or after the program.\n"
          (append
            "Do not request hidden tests, reference solutions, evaluator metadata, tools, host access,\n"
            (append
              "credentials, or network access. The candidate will execute as untrusted code in a restricted\n"
              ("sandbox.")))))

abbrev pub output_format : GenerationOutputMode → String
output_format structured_json = "structured JSON with language and source fields"
output_format raw_source = "exact raw Python source in assistant message content"

unfoldable pub coding_payload : Task → GenerationOutputMode → CodingPayload
coding_payload task mode = record {
  public_task = task;
  language = "python";
  format = output_format mode;
  coding_prompt_version = coding_prompt_version;
}

-- in units of 10 ^ -12 of the currency, rounded half to even
unfoldable pub calculate_generation_cost :
    Option PricingSnapshot → (input_tokens output_tokens : Option ℕ) → Option ℕ
unfolding rounded
calculate_generation_cost (some pricing) (some input_tokens) (some output_tokens) = some (
    rounded
      ((input_tokens * pricing.input_cost_per_million_tokens
          + output_tokens * pricing.output_cost_per_million_tokens)
        * 1000000)
      pricing.units)
calculate_generation_cost _ _ _ = none

unfoldable pub coding_request : BenchmarkModelConfig → Task → StructuredLlmRequest
unfolding coding_system_prompt coding_payload
coding_request config task = record {
  component = "coding_generation";
  model = config.model;
  system_prompt = coding_system_prompt config.output_mode;
  input_payload = coding_payload task config.output_mode;
  response_schema = "CodingOutput";
  max_output_tokens = config.max_output_tokens;
  temperature = config.temperature;
  top_p = config.top_p;
  seed = config.seed;
}

abbrev pub malformed : Option String → Result String
malformed none = raise (provider_error "malformed_output" false none)
malformed (some source) = ok source

module _ (t : Tools) where
  -- the source in the answer, by the output mode
  unfoldable pub source_of :
      GenerationOutputMode → LlmProvider → StructuredLlmRequest → Result (String × ProviderResponse)
  source_of raw_source provider request = do
    response ← provider.complete_raw_source request
    raise_if (str_eq (t.strip response.content) "")
        (provider_error "empty_output" false (some "empty_output"))
    ok (response.content, response)
  source_of structured_json provider request = do
    response ← provider.complete_structured request
    source ← malformed (t.parse_coding response.content)
    ok (source, response)

  module _ (max_code_size created_at : ℕ) (sample : BenchmarkSample)
      (config : BenchmarkModelConfig) where
    unfoldable pub artifact_of : String × ProviderResponse → GeneratedSolutionArtifact
    unfolding utf8_length calculate_generation_cost
    artifact_of (source, response) = record {
      benchmark_sample_id = sample_key sample;
      source = source;
      source_hash = t.sha256 source;
      source_size = utf8_length (codes source);
      generation_attempts = sample.attempt_count;
      provider_response_id = response.response_id;
      input_tokens = response.input_tokens;
      output_tokens = response.output_tokens;
      generation_latency_ms = response.latency_ms;
      pricing_version = elim config.pricing [ none ↦ none | some p ↦ some p.pricing_version ];
      generation_cost =
          calculate_generation_cost config.pricing response.input_tokens response.output_tokens;
      currency = elim config.pricing [ none ↦ none | some p ↦ some p.currency ];
      created_at = created_at;
    }

    unfoldable pub generate_by : LlmProvider → Task → Result GeneratedSolutionArtifact
    unfolding source_of artifact_of coding_request
    generate_by provider task = do
      answer ← source_of config.output_mode provider (coding_request config task)
      raise_if (ltb max_code_size (utf8_length (codes answer.0)))
          (provider_error "output_too_large" false none)
      ok (artifact_of answer)

    unfoldable pub generate :
        (String → Option LlmProvider) → Task → Result GeneratedSolutionArtifact
    unfolding generate_by
    generate providers task = elim (providers config.provider_id) [
      | none ↦ raise (provider_error "provider_not_configured" false none)
      | some provider ↦ generate_by provider task
    ]
