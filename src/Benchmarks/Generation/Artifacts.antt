-- ===== src/Benchmarks/Generation/Artifacts.antt =====
-- What is generated.
use mathlib.Core.Path.{subst}
use codejudge_ai.Base.{
  ℕ, ◌≤◌, ◌≡◌, refl, arith, false, Option, none, String, ltb, Option-cases, inl, inr,
}
use codejudge_ai.Base.Errors.{
  ok, raise_if, ◌>>◌, >>=-eq-ok, ok-injective, raise_if-passed, provider_error,
}
use codejudge_ai.Base.Text.{codes, utf8_length}
use codejudge_ai.Ai.Models.{Task, ProviderResponse}
use codejudge_ai.Benchmarks.Generation.{
  BenchmarkModelConfig, LlmProvider, Tools, source_of, artifact_of, generate_by, generate,
  coding_request,
}
use codejudge_ai.Benchmarks.Model.{BenchmarkSample, GeneratedSolutionArtifact, sample_key}

module _ (t : Tools) (max_code_size created_at : ℕ) (sample : BenchmarkSample)
    (config : BenchmarkModelConfig) where
  -- an artifact of the sample, within the limit, with the identity of its source
  pub record IsFitting (a : GeneratedSolutionArtifact) : Type 0 where
    pub own : a.benchmark_sample_id ≡ sample_key sample
    pub small : a.source_size ≤ max_code_size
    pub measured : a.source_size ≡ utf8_length (codes a.source)
    pub hashed : a.source_hash ≡ t.sha256 a.source

  fits :
      (answer : String × ProviderResponse) (a : GeneratedSolutionArtifact)
      → (raise_if
            (ltb max_code_size (utf8_length (codes answer.0)))
            (provider_error "output_too_large" false none)
          >> ok (artifact_of t max_code_size created_at sample config answer))
        ≡ ok a
      → IsFitting a
  unfolding artifact_of
  fits answer a e =
      let passed =
        raise_if-passed (ltb max_code_size (utf8_length (codes answer.0))) _
          (ok (artifact_of t max_code_size created_at sample config answer)) a e in
      subst IsFitting
        (ok-injective (artifact_of t max_code_size created_at sample config answer) a passed.1)
        (record { own = refl; small = ground (arith, passed.0); measured = refl; hashed = refl })

  pub generate_by-IsFitting :
      (provider : LlmProvider) (task : Task) (a : GeneratedSolutionArtifact)
      → generate_by t max_code_size created_at sample config provider task ≡ ok a
      → IsFitting a
  unfolding generate_by
  generate_by-IsFitting provider task a e =
      let answer = source_of t config.output_mode provider (coding_request config task) in
      let found = >>=-eq-ok answer _ e in fits found.0 a found.2

  pub generate-IsFitting :
      (providers : String → Option LlmProvider) (task : Task) (a : GeneratedSolutionArtifact)
      → generate t max_code_size created_at sample config providers task ≡ ok a
      → IsFitting a
  unfolding generate
  generate-IsFitting providers task a e = elim (Option-cases (providers config.provider_id)) [
    | inl h ↦ absurd (ground (arith, h))
    | inr (provider, h) ↦ generate_by-IsFitting provider task a (ground (arith, h))
  ]
