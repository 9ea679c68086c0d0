-- ===== src/Evaluator/Tests.antt =====
-- One run with its analysis, and the theorems about scores, findings and outcomes at it.
use codejudge_ai.Base.{ℕ, ◌≤◌, ◌≡◌, ◌↔◌, refl, true, false, String, none, some, [], ◌∷◌, arith}
use codejudge_ai.Evaluator.Engine.Answers.{Admits, prepare_request-succeeds_iff}
use codejudge_ai.Evaluator.Engine.Registered.{IsRegistry}
use codejudge_ai.Evaluator.Engine.{
  RegisteredTask, Registry, EvaluationOutcome, scored, outcome_with, prepare_request, succeeds,
}
use codejudge_ai.Evaluator.Findings.Clean.{IsClean, build_findings-empty_iff}
use codejudge_ai.Evaluator.Findings.{finding, build_findings}
use codejudge_ai.Evaluator.Models.{
  Finding, ComplexityMetrics, RunnerResult, TestResult, warning, error, quality, security,
}
use codejudge_ai.Evaluator.Scoring.Bounds.{InRange, scores_bounded}
use codejudge_ai.Evaluator.Scoring.Findings.{found, calculate_score-Permᴰ, finding_never_raises}
use codejudge_ai.Evaluator.Scoring.{calculate_score, calculate_final_score}
use mathlib.Core.List.{Permᴰ}

abbrev tests : TestResult
tests = record { passed = 2; failed = 1; total = 3; duration = 40; timed_out = false }

abbrev metrics : ComplexityMetrics
metrics = record { maximum = 7; average = 300; blocks = 2; analyzable = true }

abbrev unused : Finding
unused = finding warning quality "unused import"

abbrev shell : Finding
shell = finding error security "shell injection"

abbrev run : RunnerResult
run = record {
  exit_code = some 1;
  stdout = "";
  stderr = "";
  duration = 40;
  passed = 2;
  failed = 1;
  total = 3;
  timed_out = false;
  enforced_timeout = none;
  output_truncated = false;
  oom_killed = false;
  syntax_error = false;
  import_error = false;
  sandbox_error = none;
  infrastructure_error = none;
}

abbrev number : ℕ → String
number n = "1"

abbrev task : RegisteredTask
task = record { id = "lru-cache"; revision = 1; language = "python"; timeout = 5 }

abbrev registry : Registry
registry = record { tasks = task ∷ []; default_revisions = ("lru-cache", 1) ∷ [] }

scores_bounded_example :
    InRange (calculate_score tests (some (found tests metrics (unused ∷ shell ∷ []))))
    × (calculate_final_score
          (calculate_score tests (some (found tests metrics (unused ∷ shell ∷ []))))
        ≤ 10000)
scores_bounded_example =
    scores_bounded tests (some (found tests metrics (unused ∷ shell ∷ []))) (omega arith)

calculate_score-Permᴰ_example :
    calculate_score tests (some (found tests metrics (unused ∷ shell ∷ [])))
    ≡ calculate_score tests (some (found tests metrics (shell ∷ unused ∷ [])))
calculate_score-Permᴰ_example = calculate_score-Permᴰ tests metrics (Permᴰ.swap {l = []} refl refl)

finding_never_raises_example :
    calculate_final_score (calculate_score tests (some (found tests metrics (shell ∷ []))))
    ≤ calculate_final_score (calculate_score tests (some (found tests metrics [])))
finding_never_raises_example = finding_never_raises tests metrics shell []

build_findings-empty_iff_example : (build_findings number number run 5 ≡ []) ↔ IsClean run
build_findings-empty_iff_example = build_findings-empty_iff number number run 5

registry-IsRegistry : IsRegistry registry
registry-IsRegistry = record { tasks_apart = (tt, tt); defaults_apart = (tt, tt) }

prepare_request-succeeds_iff_example :
    (prepare_request registry ("python" ∷ []) 100 "lru-cache" "python" 20 none ≡ succeeds task)
    ↔ Admits registry ("python" ∷ []) 100 "lru-cache" "python" 20 none registry-IsRegistry task
prepare_request-succeeds_iff_example =
    prepare_request-succeeds_iff registry ("python" ∷ []) 100 "lru-cache" "python" 20 none
      registry-IsRegistry task

abbrev runs : RegisteredTask → RunnerResult
runs _ = run

abbrev outcome : EvaluationOutcome
outcome =
    outcome_with number number task run
      (scored number number task run (some (found tests metrics (unused ∷ []))))
