-- ===== src/Jobs/Refinement/Finish.antt =====
-- complete, record_failure and recover_stale move jobs along their lifecycle.
use mathlib.Core.Path.{subst}
use codejudge_ai.Base.{
  ℕ, ◌≡◌, ◌∙◌, refl, sym, String, none, some, false, true, Bool, arith, ◌&&◌, ◌||◌, not, ltb, ◌==◌,
  ==_iff, Bool-cases, inl, inr, is_some,
}
use codejudge_ai.Base.Errors.{ok}
use codejudge_ai.Base.Table.{find, put}
use codejudge_ai.Jobs.Invariant.Claim.{runs_for}
use codejudge_ai.Jobs.Invariant.Complete.{complete_job-eq, complete-tables}
use codejudge_ai.Jobs.Invariant.Finish.{retried, stopped, retry_or_fail-eq}
use codejudge_ai.Jobs.Invariant.{IsSound, IsConsistent, find-IsHeld}
use codejudge_ai.Base.Table.{key-find}
use codejudge_ai.Jobs.Lifecycle.{Evolves*, completes, retries, stops, once}
use codejudge_ai.Jobs.Model.{Database, EvaluationJob, EvaluationSnapshot, job_key, event_key}
use codejudge_ai.Jobs.Refinement.{MovesTo, Moves, Moved-refl, Moved-put}
use codejudge_ai.Jobs.Repository.Claim.{is_worker}
use codejudge_ai.Jobs.Repository.Finish.{
  finished, complete_job, complete_body, complete, released, retry_or_fail, fail_job, failure_body,
  record_failure,
}
use codejudge_ai.Jobs.Retry.{FailureDecision}
use codejudge_ai.Jobs.State.{is_completed, is_running}
use codejudge_ai.Jobs.Transaction.Rules.{
  Ensures, map-Ensures, if-Ensures, found-Ensures, bind-Ensures, persistent-Ensures,
  transaction-Ensures,
}
use codejudge_ai.Jobs.Transaction.{Link}

complete_job-Moves :
    (k : ℕ) (worker_id : String) (snapshot : EvaluationSnapshot) (now : ℕ) (db : Database)
    → IsConsistent db
    → snapshot.evaluation_id ≡ k
    → (job : EvaluationJob) → find job_key k db.jobs ≡ some job
    → Moves db (complete_job job worker_id snapshot now db)
complete_job-Moves k worker_id snapshot now db c same job e =
    rw
      (complete_job-eq job worker_id snapshot now db (find-IsHeld db k job c e)
        (same ∙ sym (key-find job_key k db.jobs job e)))
      (if-Ensures (MovesTo db) (is_completed job.status) _ _ (λ _. Moved-refl db.jobs)
        (λ _.
          if-Ensures (MovesTo db) (runs_for job worker_id) _ _
            (λ p. Moved-put db.jobs k job (finished job now) e (once (completes worker_id now p)))
            (λ _. Moved-refl db.jobs)))

pub complete-MovesTo :
    (link again : Link) (between : Database → Database) (evaluation_id : ℕ) (worker_id : String)
    (snapshot : EvaluationSnapshot) (now : ℕ) (db : Database)
    → IsConsistent db
    → MovesTo db (complete link again between evaluation_id worker_id snapshot now db).1
unfolding complete complete_job
complete-MovesTo link again between evaluation_id worker_id snapshot now db c =
    elim (Bool-cases (snapshot.evaluation_id == evaluation_id)) [
      | inl same ↦
          subst (MovesTo db)
            (sym (
              complete-tables link again between evaluation_id worker_id snapshot now db c
                ((==_iff _ _).0 same)))
            (transaction-Ensures (MovesTo db) link
              (complete_body evaluation_id worker_id snapshot now) db (Moved-refl db.jobs)
              (found-Ensures (MovesTo db) (find job_key evaluation_id db.jobs) false db
                (λ job. complete_job job worker_id snapshot now db) (Moved-refl db.jobs)
                (complete_job-Moves evaluation_id worker_id snapshot now db c
                  ((==_iff _ _).0 same))))
      | inr other ↦ rw (other, complete) (Moved-refl db.jobs)
    ]

-- One row is updated, by a later state of its job.
abbrev pub Updates : Database → EvaluationJob → Database → Type 0
Updates db job db' =
    (last : EvaluationJob) × (db'.jobs ≡ put job_key last db.jobs) × Evolves* job last

pub retry_or_fail-Updates :
    (retryable : Bool) (job : EvaluationJob) (category code : String) (now base event_id : ℕ)
    (db : Database)
    → IsSound job
    → is_running job.status ≡ true
    → Ensures
        (Updates db job)
        (retry_or_fail retryable (released job category code now) now base event_id db)
retry_or_fail-Updates retryable job category code now base event_id db s r =
    rw (retry_or_fail-eq retryable job category code now base event_id db s r) (
      if-Ensures (Updates db job) (retryable && ltb job.attempt_count job.max_attempts) _ _
        (λ left.
          if-Ensures (Updates db job) (is_some (find event_key event_id db.outbox)) _ _ (λ _. tt)
            (λ _. (
              retried job category code now base,
              refl,
              once (retries category code now base r (ground arith)),
            )))
        (λ _. (stopped job category code now, refl, once (stops category code now r))))

pub Updates-MovesTo :
    (db : Database) (k : ℕ) (job : EvaluationJob)
    → find job_key k db.jobs ≡ some job
    → (db' : Database) → Updates db job db'
    → MovesTo db db'
Updates-MovesTo db k job e db' (last, same, further) =
    rw same (Moved-put db.jobs k job last e further)

fail_job-Moves :
    (k : ℕ) (worker_id : String) (decision : FailureDecision) (now base event_id : ℕ)
    (db : Database)
    → IsConsistent db
    → (job : EvaluationJob) → find job_key k db.jobs ≡ some job
    → Moves db (fail_job job worker_id decision now base event_id db)
unfolding fail_job
fail_job-Moves k worker_id decision now base event_id db c job e =
    if-Ensures (MovesTo db) (not (is_running job.status) || not (is_worker job.worker_id worker_id))
      _ _ (λ _. Moved-refl db.jobs)
      λ p.
        bind-Ensures (MovesTo db) (MovesTo db)
          (retry_or_fail decision.retryable (released job decision.category decision.code now) now
            base event_id db)
          (λ status db'. ok (some status, db'))
          (map-Ensures (Updates db job) (MovesTo db) _ (Updates-MovesTo db k job e) (
            retry_or_fail-Updates decision.retryable job decision.category decision.code now base
              event_id db (find-IsHeld db k job c e).sound (ground arith)))
          (λ _ db' m. m)

pub record_failure-MovesTo :
    (link : Link) (evaluation_id : ℕ) (worker_id : String) (decision : FailureDecision)
    (now base event_id : ℕ) (db : Database)
    → IsConsistent db
    → MovesTo db (record_failure link evaluation_id worker_id decision now base event_id db).1
unfolding record_failure fail_job
record_failure-MovesTo link evaluation_id worker_id decision now base event_id db c =
    persistent-Ensures (MovesTo db) link
      (failure_body evaluation_id worker_id decision now base event_id) db (Moved-refl db.jobs)
      (found-Ensures (MovesTo db) (find job_key evaluation_id db.jobs) none db
        (λ job. fail_job job worker_id decision now base event_id db) (Moved-refl db.jobs)
        (fail_job-Moves evaluation_id worker_id decision now base event_id db c))
