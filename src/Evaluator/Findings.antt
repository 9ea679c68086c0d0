-- ===== src/Evaluator/Findings.antt =====
-- app/evaluator/findings.py: the runner's outcome as findings for the user. The two formats of
-- numbers in the messages, `{x:g}` and `{n}`, are parameters.
pub mod Clean
use codejudge_ai.Base.{
  ℕ, ◌<◌, Bool, true, false, String, Option, none, some, List, [], ◌∷◌, ◌++◌, ◌||◌, ltb, ◌==◌,
  if◌then◌else◌,
}
use codejudge_ai.Base.Text.{codes, contains}
use codejudge_ai.Evaluator.Models.{
  Finding, FindingSeverity, error, warning, FindingCategory, execution, resource, sandbox, testing,
  RunnerResult,
}
use Prim.Native.String.{◌++◌ as append}

abbrev pub finding : FindingSeverity → FindingCategory → String → Finding
finding severity category message = record {
  severity = severity;
  category = category;
  message = message;
  tool = none;
  code = none;
  line = none;
  column = none;
  end_line = none;
  end_column = none;
  fixable = none;
  confidence = none;
}

-- what `_append_output_finding` appends
unfoldable pub output_finding : RunnerResult → List Finding
output_finding result =
    if result.output_truncated
    then finding warning resource
        "Candidate output exceeded the configured capture limit and was truncated."
      ∷ []
    else []

-- f"{result.stdout}\n{result.stderr}"
abbrev pub output : RunnerResult → List ℕ
output result = codes result.stdout ++ b'\n' ∷ codes result.stderr

unfoldable pub syntax_failed : RunnerResult → Bool
syntax_failed result = result.syntax_error || contains (codes "SyntaxError") (output result)

unfoldable pub import_failed : RunnerResult → Bool
import_failed result =
    result.import_error
    || contains (codes "ImportError") (output result)
    || contains (codes "ModuleNotFoundError") (output result)

unfoldable pub load_finding : RunnerResult → List Finding
load_finding result =
    if syntax_failed result
    then finding error execution "Candidate code contains a syntax error." ∷ []
    else if import_failed result
    then finding error execution "Candidate code could not be imported by the test suite." ∷ []
    else []

-- `result.enforced_timeout_seconds or timeout_seconds`
abbrev pub enforced : Option ℕ → ℕ → ℕ
enforced none timeout = timeout
enforced (some t) timeout = if t == 0 then timeout else t

module _ (format_g decimal : ℕ → String) where
  unfoldable pub test_finding : RunnerResult → List Finding
  test_finding result =
      if ltb 0 result.failed
      then finding warning testing (
          append (decimal result.failed)
            (append " " (if result.failed == 1 then "test failed." else "tests failed.")))
        ∷ []
      else if result.total == 0
      then finding error testing "No tests were executed; correctness could not be measured." ∷ []
      else []

  unfoldable pub build_findings : RunnerResult → ℕ → List Finding
  build_findings result timeout =
      if result.timed_out
      then finding error execution (
          append "Candidate code exceeded the " (
            append (format_g (enforced result.enforced_timeout timeout))
              " second execution timeout."))
        ∷ output_finding result
      else if result.oom_killed
      then finding error resource "Candidate exceeded the sandbox memory limit."
        ∷ output_finding result
      else elim result.sandbox_error [
        | some message ↦ finding error sandbox message ∷ output_finding result
        | none ↦ elim result.infrastructure_error [
          | some message ↦
              finding error execution "The evaluation process could not be completed." ∷ []
          | none ↦ load_finding result ++ output_finding result ++ test_finding result
        ]
      ]
