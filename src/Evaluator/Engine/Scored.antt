-- ===== src/Evaluator/Engine/Scored.antt =====
-- What the scored result of a run says of its task, its run and the analysis.
use codejudge_ai.Base.{
  ℕ, ◌≡◌, ◌↔◌, refl, sym, ap, ◌∙◌, arith, false, String, Option, none, ◌⊎◌, inl, inr,
}
use codejudge_ai.Evaluator.Engine.{RegisteredTask, EvaluationResult, tests_of, status_of, scored}
use codejudge_ai.Evaluator.Findings.{build_findings}
use codejudge_ai.Evaluator.Models.{
  EvaluationStatus, completed, failed, RunnerResult, StaticAnalysisResult, TestResult,
}
use codejudge_ai.Evaluator.Scoring.{calculate_score, calculate_final_score}

-- the run was neither stopped for its time or memory nor broken by the sandbox
abbrev pub HasEnded : RunnerResult → Type 0
HasEnded r = (r.timed_out ≡ false) × (r.oom_killed ≡ false) × (r.sandbox_error ≡ none)

pub record HasCounts (r : RunnerResult) (tests : TestResult) : Type 0 where
  pub passed : tests.passed ≡ r.passed
  pub failed : tests.failed ≡ r.failed
  pub total : tests.total ≡ r.total
  pub duration : tests.duration ≡ r.duration
  pub timed_out : tests.timed_out ≡ r.timed_out

pub record IsResult (format_g decimal : ℕ → String) (task : RegisteredTask) (r : RunnerResult)
    (result : EvaluationResult) : Type 0 where
  pub task_id : result.task_id ≡ task.id
  pub status : (result.status ≡ completed) ↔ HasEnded r
  pub counts : HasCounts r result.tests
  pub breakdown : result.score_breakdown ≡ calculate_score result.tests result.analysis
  pub score : result.score ≡ calculate_final_score result.score_breakdown
  pub findings : result.findings ≡ build_findings format_g decimal r task.timeout

status_of-completed_iff : (r : RunnerResult) → (status_of r ≡ completed) ↔ HasEnded r
unfolding status_of
status_of-completed_iff r = (λ h. ground (arith, h), λ h. ground (arith, h))

status-cases : (s : EvaluationStatus) → (s ≡ completed) ⊎ (s ≡ failed)
status-cases completed = inl refl
status-cases failed = inr refl

status_of-eq :
    (r : RunnerResult) (status : EvaluationStatus)
    → (status ≡ completed) ↔ HasEnded r
    → status_of r ≡ status
status_of-eq r completed h = (status_of-completed_iff r).1 (h.0 refl)
status_of-eq r failed h = elim (status-cases (status_of r)) [
  | inl e ↦ let other = h.1 ((status_of-completed_iff r).0 e) in absurd (cc)
  | inr e ↦ e
]

module _ (format_g decimal : ℕ → String) (task : RegisteredTask) (r : RunnerResult) where
  pub scored-IsResult :
      (answer : Option StaticAnalysisResult)
      → IsResult format_g decimal task r (scored format_g decimal task r answer)
  unfolding scored tests_of
  scored-IsResult answer = record {
    task_id = refl;
    status = status_of-completed_iff r;
    counts = record {
      passed = refl;
      failed = refl;
      total = refl;
      duration = refl;
      timed_out = refl;
    };
    breakdown = refl;
    score = refl;
    findings = refl;
  }

  pub IsResult-scored :
      (result : EvaluationResult)
      → IsResult format_g decimal task r result
      → scored format_g decimal task r result.analysis ≡ result
  unfolding scored tests_of
  IsResult-scored result c =
      let tests : tests_of r ≡ result.tests = λ i. record {
        passed = sym c.counts.passed i;
        failed = sym c.counts.failed i;
        total = sym c.counts.total i;
        duration = sym c.counts.duration i;
        timed_out = sym c.counts.timed_out i;
      } in
      let breakdown = ap (λ t. calculate_score t result.analysis) tests ∙ sym c.breakdown in
      let score = ap calculate_final_score breakdown ∙ sym c.score in
      let status = status_of-eq r result.status c.status in
      λ i. record {
        task_id = sym c.task_id i;
        status = status i;
        score = score i;
        tests = tests i;
        score_breakdown = breakdown i;
        analysis = result.analysis;
        findings = sym c.findings i;
      }
