-- ===== src/Evaluator/Engine/Answers.antt =====
-- Which requests reach a runner, and which evaluations have an outcome.
use codejudge_ai.Base.{ℕ, ◌≤◌, ◌≡◌, ◌↔◌, arith, true, String, Option, none, some, List, str_eq_iff}
use codejudge_ai.Evaluator.Engine.Registered.{IsRegistry, Resolves, get-succeeds_iff}
use codejudge_ai.Evaluator.Engine.Scored.{IsResult}
use codejudge_ai.Evaluator.Engine.{
  RegisteredTask, Outcome, succeeds, fails, Analysis, disabled, analyzed, EvaluationResult,
  EvaluationOutcome, runnable, Registry, get, has_runner, prepare_request,
}
use codejudge_ai.Evaluator.Models.{RunnerResult, StaticAnalysisResult}

abbrev IsRunnable : List String → String → RegisteredTask → Type 0
IsRunnable runners language task = (language ≡ task.language) × (has_runner runners language ≡ true)

runnable-succeeds_iff :
    (runners : List String) (language : String) (found : Outcome RegisteredTask)
    (task : RegisteredTask)
    → (runnable runners language found ≡ succeeds task)
      ↔ ((found ≡ succeeds task) × IsRunnable runners language task)
unfolding runnable
runnable-succeeds_iff runners language (fails e) task = (λ h. cc, λ h. cc)
runnable-succeeds_iff runners language (succeeds t) task = (
  λ h. ground (arith, str_eq_iff language t.language),
  λ h. ground (arith, str_eq_iff language t.language),
)

-- what the analyzers have answered, if there are any
abbrev pub HasAnswered : Analysis → Option StaticAnalysisResult → Type 0
HasAnswered disabled none = Unit {0}
HasAnswered (analyzed found) (some answer) = found ≡ answer
HasAnswered _ _ = ⊥

module _ (format_g decimal : ℕ → String) where
  -- the scored result of a run that met no trouble of the infrastructure
  abbrev pub Scores :
      RegisteredTask → RunnerResult → Option String → Analysis → EvaluationResult → Type 0
  Scores task r failure analysis result =
      (failure ≡ none)
      × HasAnswered analysis result.analysis
      × IsResult format_g decimal task r result

  module _ (run : RegisteredTask → RunnerResult) (analysis : Analysis) where
    -- an outcome of the task that was prepared, and of its run
    abbrev pub ComesFrom : EvaluationOutcome → Type 0
    ComesFrom o =
        (o.runner_result ≡ run o.task)
        × Scores o.task (run o.task) (run o.task).infrastructure_error analysis o.result

module _ (registry : Registry) (runners : List String) (max_code_size : ℕ)
    (task_id language : String) (code_size : ℕ) (task_revision : Option ℕ)
    (dictionaries : IsRegistry registry) where
  -- the requests that may be run
  abbrev pub Admits : RegisteredTask → Type 0
  Admits task =
      (code_size ≤ max_code_size)
      × Resolves registry task_id task_revision task
      × (language ≡ task.language)
      × (has_runner runners language ≡ true)

  -- With a registry whose two dictionaries have distinct keys, a request is answered with a task
  -- exactly when the code is within the limit, the task is in the registry under the id asked for
  -- and under the revision asked for or, when none is, the default revision of that id, and the
  -- language is that of the task and has a runner.
  pub prepare_request-succeeds_iff :
      (task : RegisteredTask)
      → (prepare_request registry runners max_code_size task_id language code_size task_revision
          ≡ succeeds task)
        ↔ Admits task
  unfolding prepare_request
  prepare_request-succeeds_iff task =
      let checked =
        runnable-succeeds_iff runners language (get registry task_id task_revision) task in
      let found = get-succeeds_iff registry task_id task_revision task dictionaries in
      (
        λ h.
            let size : code_size ≤ max_code_size = ground (arith, h) in
            let run = checked.0 (ground (arith, h, size)) in
            (size, found.0 run.0, run.1.0, run.1.1),
        λ h. let run = checked.1 (found.1 h.1, (h.2, h.3)) in ground (arith, h.0, run),
      )
