-- ===== src/Worker/Identity.antt =====
-- Which jobs pass the validation.
use codejudge_ai.Base.{
  ◌≡◌, refl, ◌↔◌, ◌⊎◌, inl, inr, arith, Bool, true, false, not, ◌||◌, ◌==◌, String, str_eq,
  str_eq_iff,
}
use codejudge_ai.Base.Errors.{Result, ok, raise, ◌>>◌, raise_if, evaluation_integrity}
use codejudge_ai.Jobs.Model.{EvaluationJob}
use codejudge_ai.Worker.Validation.{
  Present, same_execution, same_versions, validated_task, validated_runtime, validated_request,
}

-- the source and the task of the job are the present ones
pub record IsSameTask (job : EvaluationJob) (now : Present) : Type 0 where
  pub source_hash : now.source_hash ≡ job.source_hash
  pub source_size : now.source_size ≡ job.source_size
  pub prepared : now.prepare_request ≡ ok tt
  pub task_version : now.task_version ≡ job.task_version
  pub tests_fingerprint : now.tests_fingerprint ≡ job.tests_fingerprint
  pub task_fingerprint : now.task_fingerprint ≡ job.task_fingerprint

-- the versions that the job expects are in use
pub record IsSameRuntime (job : EvaluationJob) (now : Present) : Type 0 where
  pub identified : now.runtime_identity ≡ ok tt
  pub analyzers : same_versions now.analyzer_versions job.expected_analyzer_versions ≡ true
  pub scoring : now.scoring_policy_version ≡ job.expected_scoring_policy_version
  pub codejudge : now.codejudge_version ≡ job.expected_codejudge_version
  pub execution : same_execution now.execution job.expected_execution ≡ true

validated_task-ok_iff :
    (job : EvaluationJob) (now : Present) → (validated_task job now ≡ ok tt) ↔ IsSameTask job now
unfolding validated_task
validated_task-ok_iff job now = (
  λ h. ground (
    arith,
    str_eq_iff now.source_hash job.source_hash,
    str_eq_iff now.task_version job.task_version,
    str_eq_iff now.tests_fingerprint job.tests_fingerprint,
    str_eq_iff now.task_fingerprint job.task_fingerprint,
  ),
  λ h. ground (
    arith,
    str_eq_iff now.source_hash job.source_hash,
    str_eq_iff now.task_version job.task_version,
    str_eq_iff now.tests_fingerprint job.tests_fingerprint,
    str_eq_iff now.task_fingerprint job.task_fingerprint,
  ),
)

validated_runtime-ok_iff :
    (job : EvaluationJob) (now : Present)
    → (validated_runtime job now ≡ ok tt) ↔ IsSameRuntime job now
unfolding validated_runtime
validated_runtime-ok_iff job now = (
  λ h. ground (
    arith,
    str_eq_iff now.scoring_policy_version job.expected_scoring_policy_version,
    str_eq_iff now.codejudge_version job.expected_codejudge_version,
  ),
  λ h. ground (
    arith,
    str_eq_iff now.scoring_policy_version job.expected_scoring_policy_version,
    str_eq_iff now.codejudge_version job.expected_codejudge_version,
  ),
)

both-ok : (a b : Result (Unit {0})) → (a >> b) ≡ ok tt → (a ≡ ok tt) × (b ≡ ok tt)
both-ok (ok u) b h = (refl, h)
both-ok (raise e) b h = absurd (ground arith)

-- The validation of a job passes exactly when its source, its task and tests and every version that
-- it expects are the present ones, and the request, the task and the identity of the runtime can be
-- built and read.
pub validated_request-ok_iff :
    (job : EvaluationJob) (now : Present)
    → (validated_request job now ≡ ok tt) ↔ (IsSameTask job now × IsSameRuntime job now)
unfolding validated_request
validated_request-ok_iff job now =
    let task = validated_task-ok_iff job now in
    let runtime = validated_runtime-ok_iff job now in
    (
      λ h.
          let both = both-ok (validated_task job now) (validated_runtime job now) h in
          (task.0 both.0, runtime.0 both.1),
      λ h. rw (task.1 h.0, runtime.1 h.1) refl,
    )

-- the check passes, or raises an EvaluationIntegrityError
abbrev pub PassesOrRefuses : Result (Unit {0}) → Type 0
PassesOrRefuses r = (r ≡ ok tt) ⊎ (code : String) × (r ≡ raise (evaluation_integrity code))

raise_if-PassesOrRefuses :
    (b : Bool) (code : String) → PassesOrRefuses (raise_if b (evaluation_integrity code))
raise_if-PassesOrRefuses true code = inr (code, refl)
raise_if-PassesOrRefuses false code = inl refl

then-PassesOrRefuses :
    (a b : Result (Unit {0})) → PassesOrRefuses a → PassesOrRefuses b → PassesOrRefuses (a >> b)
then-PassesOrRefuses a b (inl e) h = rw e h
then-PassesOrRefuses a b (inr (code, e)) h = inr (code, rw e refl)

checked-PassesOrRefuses :
    (b : Bool) (code : String) (rest : Result (Unit {0}))
    → PassesOrRefuses rest
    → PassesOrRefuses (raise_if b (evaluation_integrity code) >> rest)
checked-PassesOrRefuses b code rest h =
    then-PassesOrRefuses (raise_if b (evaluation_integrity code)) rest
      (raise_if-PassesOrRefuses b code) h

module _ (job : EvaluationJob) (now : Present) where
  validated_task-PassesOrRefuses :
      now.prepare_request ≡ ok tt → PassesOrRefuses (validated_task job now)
  unfolding validated_task
  validated_task-PassesOrRefuses prepared =
      checked-PassesOrRefuses
        (not (str_eq now.source_hash job.source_hash) || not (now.source_size == job.source_size))
        "source_identity_mismatch" _
        (then-PassesOrRefuses now.prepare_request _ (inl prepared) (
          checked-PassesOrRefuses (not (str_eq now.task_version job.task_version))
            "task_version_mismatch" _
            (checked-PassesOrRefuses (not (str_eq now.tests_fingerprint job.tests_fingerprint))
              "tests_fingerprint_mismatch" _
              (raise_if-PassesOrRefuses (not (str_eq now.task_fingerprint job.task_fingerprint))
                "task_fingerprint_mismatch"))))

  validated_runtime-PassesOrRefuses :
      now.runtime_identity ≡ ok tt → PassesOrRefuses (validated_runtime job now)
  unfolding validated_runtime
  validated_runtime-PassesOrRefuses identified =
      then-PassesOrRefuses now.runtime_identity _ (inl identified) (
        checked-PassesOrRefuses
          (not (same_versions now.analyzer_versions job.expected_analyzer_versions))
          "analyzer_versions_mismatch" _
          (checked-PassesOrRefuses
            (not (str_eq now.scoring_policy_version job.expected_scoring_policy_version))
            "scoring_policy_version_mismatch" _
            (checked-PassesOrRefuses
              (not (str_eq now.codejudge_version job.expected_codejudge_version))
              "codejudge_version_mismatch" _
              (raise_if-PassesOrRefuses (not (same_execution now.execution job.expected_execution))
                "execution_environment_mismatch"))))

  -- When the request and the identity of the runtime can be built, the validation of a job passes
  -- or raises an EvaluationIntegrityError.
  pub validated_request-PassesOrRefuses :
      now.prepare_request ≡ ok tt
      → now.runtime_identity ≡ ok tt
      → PassesOrRefuses (validated_request job now)
  unfolding validated_request
  validated_request-PassesOrRefuses prepared identified =
      then-PassesOrRefuses (validated_task job now) (validated_runtime job now)
        (validated_task-PassesOrRefuses prepared) (validated_runtime-PassesOrRefuses identified)
