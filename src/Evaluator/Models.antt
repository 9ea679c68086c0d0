-- ===== src/Evaluator/Models.antt =====
-- The models of app/evaluator/models.py that scoring and findings read. Durations are counted in
-- milliseconds, scores in hundredths of a point.
use codejudge_ai.Base.{ℕ, Bool, String, Option, List}

pub data EvaluationStatus : Type 0 where
  completed failed : EvaluationStatus

pub data FindingSeverity : Type 0 where
  info warning error : FindingSeverity

pub data FindingCategory : Type 0 where
  validation execution testing resource sandbox : FindingCategory
  quality type_safety security complexity : FindingCategory

pub data AnalysisTool : Type 0 where
  ruff mypy bandit radon : AnalysisTool

pub data FindingConfidence : Type 0 where
  low medium high : FindingConfidence

pub record TestResult : Type 0 where
  pub passed : ℕ
  pub failed : ℕ
  pub total : ℕ
  pub duration : ℕ
  pub timed_out : Bool

pub record Finding : Type 0 where
  pub severity : FindingSeverity
  pub category : FindingCategory
  pub message : String
  pub tool : Option AnalysisTool
  pub code : Option String
  pub line : Option ℕ
  pub column : Option ℕ
  pub end_line : Option ℕ
  pub end_column : Option ℕ
  pub fixable : Option Bool
  pub confidence : Option FindingConfidence

pub record ComplexityMetrics : Type 0 where
  pub maximum : ℕ
  pub average : ℕ
  pub blocks : ℕ
  pub analyzable : Bool

pub record StaticAnalysisResult : Type 0 where
  pub findings : List Finding
  pub complexity : ComplexityMetrics

pub record ScoreBreakdown : Type 0 where
  pub correctness : ℕ
  pub code_quality : Option ℕ
  pub type_safety : Option ℕ
  pub security : Option ℕ
  pub complexity : Option ℕ

pub record RunnerResult : Type 0 where
  pub exit_code : Option ℕ
  pub stdout : String
  pub stderr : String
  pub duration : ℕ
  pub passed : ℕ
  pub failed : ℕ
  pub total : ℕ
  pub timed_out : Bool
  pub enforced_timeout : Option ℕ
  pub output_truncated : Bool
  pub oom_killed : Bool
  pub syntax_error : Bool
  pub import_error : Bool
  pub sandbox_error : Option String
  pub infrastructure_error : Option String
