-- ===== src/Evaluator/Engine.antt =====
-- evaluate_outcome and prepare_request of app/evaluator/engine.py, and get of app/tasks/registry.py.
-- What the runner and the analyzers answer, and the registered tasks, are arguments.
pub mod Registered
pub mod Scored
pub mod Answers
use codejudge_ai.Base.{
  ℕ, Bool, true, false, String, Option, none, some, List, [], ◌∷◌, ◌||◌, ◌&&◌, not, any, is_some,
  ltb, ◌==◌, str_eq, if◌then◌else◌,
}
use codejudge_ai.Evaluator.Findings.{build_findings}
use codejudge_ai.Evaluator.Models.{
  EvaluationStatus, completed, failed, Finding, RunnerResult, ScoreBreakdown, StaticAnalysisResult,
  TestResult,
}
use codejudge_ai.Evaluator.Scoring.{calculate_score, calculate_final_score}

pub record EvaluationResult : Type 0 where
  pub task_id : String
  pub status : EvaluationStatus
  pub score : ℕ
  pub tests : TestResult
  pub score_breakdown : ScoreBreakdown
  pub analysis : Option StaticAnalysisResult
  pub findings : List Finding

-- the task, as far as the engine reads it
pub record RegisteredTask : Type 0 where
  pub id : String
  pub revision : ℕ
  pub language : String
  pub timeout : ℕ

-- the engine's errors
pub data EngineError : Type 0 where
  code_size_exceeded : ℕ → ℕ → EngineError
  task_not_found : String → Option ℕ → EngineError
  unsupported_language : String → EngineError
  broken : String → EngineError

pub data Outcome {ℓ} (A : Type ℓ) : Type ℓ where
  succeeds : A → Outcome A
  fails : EngineError → Outcome A

pub data Analysis : Type 0 where
  disabled : Analysis
  analyzed : StaticAnalysisResult → Analysis
  unavailable : String → Analysis

unfoldable pub tests_of : RunnerResult → TestResult
tests_of r = record {
  passed = r.passed;
  failed = r.failed;
  total = r.total;
  duration = r.duration;
  timed_out = r.timed_out;
}

unfoldable pub status_of : RunnerResult → EvaluationStatus
status_of r = if r.timed_out || r.oom_killed || is_some r.sandbox_error then failed else completed

module _ (format_g decimal : ℕ → String) where
  unfoldable pub scored :
      RegisteredTask → RunnerResult → Option StaticAnalysisResult → EvaluationResult
  scored task r analysis =
      let breakdown = calculate_score (tests_of r) analysis in
      record {
        task_id = task.id;
        status = status_of r;
        score = calculate_final_score breakdown;
        tests = tests_of r;
        score_breakdown = breakdown;
        analysis = analysis;
        findings = build_findings format_g decimal r task.timeout;
      }

  unfoldable pub outcome_of :
      RegisteredTask → RunnerResult → Option String → Analysis → Outcome EvaluationResult
  outcome_of task r (some message) analysis = fails (broken message)
  outcome_of task r none disabled = succeeds (scored task r none)
  outcome_of task r none (analyzed a) = succeeds (scored task r (some a))
  outcome_of task r none (unavailable message) = fails (broken message)

-- TaskRegistry's two dictionaries
pub record Registry : Type 0 where
  pub tasks : List RegisteredTask
  pub default_revisions : List (String × ℕ)

unfoldable pub find_task : String → ℕ → List RegisteredTask → Option RegisteredTask
find_task task_id revision [] = none
find_task task_id revision (task ∷ tasks) =
    if str_eq task.id task_id && task.revision == revision
    then some task
    else find_task task_id revision tasks

unfoldable pub default_of : String → List (String × ℕ) → Option ℕ
default_of task_id [] = none
default_of task_id ((k, revision) ∷ rest) =
    if str_eq k task_id then some revision else default_of task_id rest

abbrev pub resolved_revision : Registry → String → Option ℕ → Option ℕ
resolved_revision registry task_id none = default_of task_id registry.default_revisions
resolved_revision registry task_id (some revision) = some revision

unfoldable pub get : Registry → String → Option ℕ → Outcome RegisteredTask
get registry task_id revision = elim (resolved_revision registry task_id revision) [
  | none ↦ fails (task_not_found task_id revision)
  | some r ↦ elim (find_task task_id r registry.tasks) [
    | none ↦ fails (task_not_found task_id revision)
    | some task ↦ succeeds task
  ]
]

-- `language in self._runners`
unfoldable pub has_runner : List String → String → Bool
has_runner runners language = any (str_eq language) runners

-- the checks of the language
unfoldable pub runnable : List String → String → Outcome RegisteredTask → Outcome RegisteredTask
runnable runners language (fails e) = fails e
runnable runners language (succeeds task) =
    if not (str_eq language task.language)
    then fails (unsupported_language language)
    else if not (has_runner runners language)
    then fails (unsupported_language language)
    else succeeds task

-- `code_size` is the length of the code in bytes of UTF-8.
unfoldable pub prepare_request :
    Registry
    → (runners : List String) (max_code_size : ℕ) (task_id language : String) (code_size : ℕ)
      (task_revision : Option ℕ)
    → Outcome RegisteredTask
prepare_request registry runners max_code_size task_id language code_size task_revision =
    if ltb max_code_size code_size
    then fails (code_size_exceeded code_size max_code_size)
    else runnable runners language (get registry task_id task_revision)

-- EvaluationOutcome
pub record EvaluationOutcome : Type 0 where
  pub result : EvaluationResult
  pub runner_result : RunnerResult
  pub task : RegisteredTask

module _ (format_g decimal : ℕ → String) where
  abbrev pub outcome_with : RegisteredTask → RunnerResult → EvaluationResult → EvaluationOutcome
  outcome_with task r result = record { result = result; runner_result = r; task = task }

  abbrev pub with_result :
      RegisteredTask → RunnerResult → Outcome EvaluationResult → Outcome EvaluationOutcome
  with_result task r (fails e) = fails e
  with_result task r (succeeds result) = succeeds (outcome_with task r result)

  -- the task that was prepared is run and its code analyzed
  unfoldable pub evaluated :
      (RegisteredTask → RunnerResult)
      → Analysis
      → Outcome RegisteredTask
      → Outcome EvaluationOutcome
  unfolding outcome_of
  evaluated run analysis (fails e) = fails e
  evaluated run analysis (succeeds task) =
      with_result task (run task)
        (outcome_of format_g decimal task (run task) (run task).infrastructure_error analysis)

  -- `run` is what the runner of the language answers for a task and the code of the request, and
  -- `analysis` what the analyzers answer for that code.
  unfoldable pub evaluate_outcome :
      Registry
      → (runners : List String) (max_code_size : ℕ) (task_id language : String) (code_size : ℕ)
        (task_revision : Option ℕ)
      → (RegisteredTask → RunnerResult)
      → Analysis
      → Outcome EvaluationOutcome
  unfolding prepare_request evaluated
  evaluate_outcome registry runners max_code_size task_id language code_size task_revision run
        analysis =
      evaluated run analysis
        (prepare_request registry runners max_code_size task_id language code_size task_revision)
