-- ===== src/Worker/Validation.antt =====
-- _validated_request of app/worker/service.py: the identity of a job against the present one.
use codejudge_ai.Base.{
  ℕ, Bool, true, false, not, ◌&&◌, ◌||◌, String, Option, none, some, List, [], ◌∷◌, length, ◌==◌,
  str_eq, if◌then◌else◌,
}
use codejudge_ai.Base.Errors.{Result, ◌>>◌, raise_if, evaluation_integrity}
use codejudge_ai.Jobs.Model.{ExecutionEnvironmentSnapshot, EvaluationJob}

-- What the worker finds: the hash and size of the job's source, what building the request and
-- resolving its task raises, the task as it stands, what reading the runtime's identity raises, and
-- the versions in use.
pub record Present : Type 0 where
  pub source_hash : String
  pub source_size : ℕ
  pub prepare_request : Result (Unit {0})
  pub task_version : String
  pub tests_fingerprint : String
  pub task_fingerprint : String
  pub runtime_identity : Result (Unit {0})
  pub analyzer_versions : List (String × String)
  pub scoring_policy_version : String
  pub codejudge_version : String
  pub execution : ExecutionEnvironmentSnapshot

unfoldable pub same_option : Option String → Option String → Bool
same_option none none = true
same_option (some s) (some t) = str_eq s t
same_option _ _ = false

unfoldable pub same_execution : ExecutionEnvironmentSnapshot → ExecutionEnvironmentSnapshot → Bool
same_execution a b =
    str_eq a.backend b.backend
    && same_option a.sandbox_image b.sandbox_image
    && same_option a.sandbox_image_id b.sandbox_image_id

unfoldable pub has_version : String → String → List (String × String) → Bool
has_version key version [] = false
has_version key version ((k, v) ∷ rest) =
    if str_eq k key then str_eq v version else has_version key version rest

unfoldable pub has_versions : List (String × String) → List (String × String) → Bool
has_versions [] present = true
has_versions ((k, v) ∷ rest) present = has_version k v present && has_versions rest present

-- equality of dictionaries, whose keys are distinct
unfoldable pub same_versions : List (String × String) → List (String × String) → Bool
same_versions a b = length a == length b && has_versions a b

-- the job's source and task against the present ones
unfoldable pub validated_task : EvaluationJob → Present → Result (Unit {0})
validated_task job now =
    raise_if
      (not (str_eq now.source_hash job.source_hash) || not (now.source_size == job.source_size))
      (evaluation_integrity "source_identity_mismatch")
    >> (now.prepare_request
        >> (raise_if (not (str_eq now.task_version job.task_version))
              (evaluation_integrity "task_version_mismatch")
            >> (raise_if (not (str_eq now.tests_fingerprint job.tests_fingerprint))
                  (evaluation_integrity "tests_fingerprint_mismatch")
                >> raise_if (not (str_eq now.task_fingerprint job.task_fingerprint))
                    (evaluation_integrity "task_fingerprint_mismatch"))))

-- the versions that the job expects against those in use
unfoldable pub validated_runtime : EvaluationJob → Present → Result (Unit {0})
validated_runtime job now =
    now.runtime_identity
    >> (raise_if (not (same_versions now.analyzer_versions job.expected_analyzer_versions))
          (evaluation_integrity "analyzer_versions_mismatch")
        >> (raise_if (not (str_eq now.scoring_policy_version job.expected_scoring_policy_version))
              (evaluation_integrity "scoring_policy_version_mismatch")
            >> (raise_if (not (str_eq now.codejudge_version job.expected_codejudge_version))
                  (evaluation_integrity "codejudge_version_mismatch")
                >> raise_if (not (same_execution now.execution job.expected_execution))
                    (evaluation_integrity "execution_environment_mismatch"))))

unfoldable pub validated_request : EvaluationJob → Present → Result (Unit {0})
validated_request job now = validated_task job now >> validated_runtime job now
