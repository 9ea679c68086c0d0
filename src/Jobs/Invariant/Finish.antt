-- ===== src/Jobs/Invariant/Finish.antt =====
-- complete, record_failure and recover_stale keep the tables consistent.
use codejudge_ai.Base.{
  ℕ, ◌+◌, ◌<◌, ◌≡◌, refl, Bool, true, String, some, inl, arith, ltb, if◌then◌else◌, ◌&&◌, is_some,
  [], ◌∷◌, ◌++◌, Any-append_right, ◌*◌, ◌^◌, ◌-◌,
}
use codejudge_ai.Base.Errors.{ok, raise, integrity_error}
use codejudge_ai.Base.Table.{find, put, insert_row}
use codejudge_ai.Jobs.Invariant.Claim.{with_job}
use codejudge_ai.Jobs.Invariant.Keeps.{KeepsWith, IsConsistentWith}
use codejudge_ai.Jobs.Transaction.Rules.{if-Ensures}
use codejudge_ai.Jobs.Invariant.{
  IsSound, IsCovered, IsStored, IsConsistent, Covers, put-IsConsistent, event-IsConsistent,
}
use codejudge_ai.Jobs.Model.{Database, EvaluationJob, OutboxEvent, job_key, event_key, job_checks}
use codejudge_ai.Jobs.Repository.Finish.{outbox_record, released, waiting, given_up, retry_or_fail}
use codejudge_ai.Jobs.State.{retry_wait, failed, is_running}
use codejudge_ai.Jobs.Transaction.{update_job-ok, add_event}

-- what one failed attempt makes of a running job
abbrev pub retried : EvaluationJob → String → String → ℕ → ℕ → EvaluationJob
retried job category code now base =
    waiting (released job category code now) (now + base * 3 ^ (job.attempt_count - 1))

abbrev pub stopped : EvaluationJob → String → String → ℕ → EvaluationJob
stopped job category code now = given_up (released job category code now) now

module _ (job : EvaluationJob) (category code : String) (now base : ℕ) (s : IsSound job)
    (r : is_running job.status ≡ true) where
  retried-IsSound :
      job.attempt_count < job.max_attempts → IsSound (retried job category code now base)
  retried-IsSound left = ground arith

  retried-job_checks :
      job.attempt_count < job.max_attempts → job_checks (retried job category code now base) ≡ true
  unfolding job_checks
  retried-job_checks left = ground arith

  stopped-IsSound : IsSound (stopped job category code now)
  stopped-IsSound = ground arith

  stopped-job_checks : job_checks (stopped job category code now) ≡ true
  unfolding job_checks
  stopped-job_checks = ground arith

-- an INSERT that the primary key lets through, or not
add_event-eq :
    (event : OutboxEvent) (db : Database)
    → add_event event db ≡ (
        if is_some (find event_key event.event_id db.outbox)
        then raise integrity_error
        else ok (tt, record db { outbox = db.outbox ++ event ∷ [] }))
unfolding add_event insert_row
add_event-eq event db = ground arith

-- the event that announces the next attempt
abbrev pub retry_event : EvaluationJob → ℕ → ℕ → ℕ → OutboxEvent
retry_event job now base event_id =
    outbox_record event_id job.evaluation_id now (some (now + base * 3 ^ (job.attempt_count - 1)))

abbrev pub with_retry : Database → EvaluationJob → String → String → ℕ → ℕ → ℕ → Database
with_retry db job category code now base event_id = record db {
  jobs = put job_key (retried job category code now base) db.jobs;
  outbox = db.outbox ++ retry_event job now base event_id ∷ [];
}

-- A failed attempt of a running job: another attempt with its event while attempts are left, and
-- the end of the job otherwise.
pub retry_or_fail-eq :
    (retryable : Bool) (job : EvaluationJob) (category code : String) (now base event_id : ℕ)
    (db : Database)
    → IsSound job
    → is_running job.status ≡ true
    → retry_or_fail retryable (released job category code now) now base event_id db ≡ (
        if retryable && ltb job.attempt_count job.max_attempts
        then if is_some (find event_key event_id db.outbox)
          then raise integrity_error
          else ok (retry_wait, with_retry db job category code now base event_id)
        else ok (failed, with_job db (stopped job category code now)))
unfolding retry_or_fail
retry_or_fail-eq retryable job category code now base event_id db s r = ground (
  arith,
  retried-job_checks job category code now base s r,
  stopped-job_checks job category code now base s r,
  add_event-eq (retry_event job now base event_id) db,
  update_job-ok (retried job category code now base)
      (record db { outbox = db.outbox ++ retry_event job now base event_id ∷ [] }),
  update_job-ok (stopped job category code now) db,
)

module _ (job : EvaluationJob) (category code : String) (now base event_id : ℕ) (db : Database)
    (c : IsConsistent db) (s : IsSound job) (r : is_running job.status ≡ true)
    (t : IsStored db.evaluations job) where
  retried-IsCovered :
      IsCovered
        (db.outbox ++ retry_event job now base event_id ∷ [])
        (retried job category code now base)
  unfolding outbox_record
  retried-IsCovered p =
      Any-append_right (Covers (retried job category code now base)) db.outbox
        (retry_event job now base event_id ∷ []) (inl (refl, omega arith))

  with_retry-IsConsistent :
      job.attempt_count < job.max_attempts
      → IsConsistent (with_retry db job category code now base event_id)
  with_retry-IsConsistent left =
      put-IsConsistent (record db { outbox = db.outbox ++ retry_event job now base event_id ∷ [] })
        (retried job category code now base)
        (event-IsConsistent db (retry_event job now base event_id) c)
        (retried-IsSound job category code now base s r left) retried-IsCovered (ground (arith, t))

  stopped-IsConsistent : IsConsistent (with_job db (stopped job category code now))
  stopped-IsConsistent =
      put-IsConsistent db (stopped job category code now) c
        (stopped-IsSound job category code now base s r) (λ p. absurd (ground arith))
        (ground (arith, t))

  pub retry_or_fail-Keeps :
      (retryable : Bool)
      → KeepsWith db.evaluations
          (retry_or_fail retryable (released job category code now) now base event_id db)
  retry_or_fail-Keeps retryable =
      rw (retry_or_fail-eq retryable job category code now base event_id db s r) (
        if-Ensures (IsConsistentWith db.evaluations)
          (retryable && ltb job.attempt_count job.max_attempts) _ _
          (λ left.
            if-Ensures (IsConsistentWith db.evaluations)
              (is_some (find event_key event_id db.outbox)) _ _ (λ _. tt)
              (λ _. (with_retry-IsConsistent (ground arith), refl)))
          (λ _. (stopped-IsConsistent, refl)))
