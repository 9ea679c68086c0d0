-- ===== src/Jobs/Repository/Create.antt =====
-- create, get, _get_by_idempotency_key and _reuse of app/jobs/repositories.py. A creation makes up
-- to three transactions; `between` is what other processes do to the tables before each of the
-- later ones.
use codejudge_ai.Base.{
  ℕ, Bool, true, false, String, Option, none, some, List, [], ◌∷◌, if◌then◌else◌, any, str_eq,
}
use codejudge_ai.Base.Errors.{
  Result, ok, raise, integrity_error, persistence_error, idempotency_conflict,
}
use codejudge_ai.Base.Table.{find, insert_row}
use codejudge_ai.Jobs.Model.{Database, EvaluationJob, job_key, job_checks}
use codejudge_ai.Jobs.Repository.Finish.{outbox_record}
use codejudge_ai.Jobs.Transaction.{
  Session, Link, ◌>>◌, add_event, transaction, persistent, as_persistence,
}

-- `EvaluationJobRecord.idempotency_key == key`
abbrev pub has_key : String → EvaluationJob → Bool
has_key key job = elim job.idempotency_key [ none ↦ false | some k ↦ str_eq k key ]

unfoldable pub find_by_key : String → List EvaluationJob → Option EvaluationJob
find_by_key key [] = none
find_by_key key (job ∷ jobs) = if has_key key job then some job else find_by_key key jobs

unfoldable pub get : Link → ℕ → Database → Result (Option EvaluationJob) × Database
unfolding persistent
get link evaluation_id = persistent link λ db. ok (find job_key evaluation_id db.jobs, db)

-- the UNIQUE constraint on idempotency_key
abbrev pub key_taken : Option String → List EvaluationJob → Bool
key_taken none jobs = false
key_taken (some key) jobs = any (has_key key) jobs

-- `session.add(_job_record(job))`
unfoldable pub add_job : EvaluationJob → Session (Unit {0})
unfolding job_checks
add_job job db =
    if job_checks job
    then if key_taken job.idempotency_key db.jobs
      then raise integrity_error
      else elim (insert_row job_key job db.jobs) [
        | none ↦ raise integrity_error
        | some rows ↦ ok (tt, record db { jobs = rows })
      ]
    else raise integrity_error

unfoldable pub create_body : EvaluationJob → ℕ → Session (Unit {0})
unfolding outbox_record
create_body job event_id = do
  add_job job
  add_event (outbox_record event_id job.evaluation_id job.created_at none)

unfoldable pub reuse : EvaluationJob → String → Result (EvaluationJob × Bool)
reuse existing request_identity =
    if str_eq existing.request_fingerprint request_identity
    then ok (existing, false)
    else raise idempotency_conflict

-- a lookup by the key of the job, if it has one
unfoldable pub lookup_key : Link → Option String → Database → Result (Option EvaluationJob)
unfolding find_by_key persistent
lookup_key link none db = ok none
lookup_key link (some key) db = (persistent link (λ db'. ok (find_by_key key db'.jobs, db')) db).0

-- what the insertion's outcome leads to
unfoldable pub after_insert :
    Link → EvaluationJob → Result (Unit {0}) → Database → Result (EvaluationJob × Bool)
unfolding lookup_key reuse
after_insert link job (ok _) db = ok (job, true)
after_insert link job (raise integrity_error) db = elim (lookup_key link job.idempotency_key db) [
  | raise e ↦ raise e
  | ok none ↦ raise persistence_error
  | ok (some existing) ↦ reuse existing job.request_fingerprint
]
after_insert link job (raise e) db = as_persistence (raise e)

unfoldable pub insert_new :
    Link
    → Link
    → (Database → Database)
    → EvaluationJob
    → ℕ
    → Database
    → Result (EvaluationJob × Bool) × Database
unfolding create_body transaction after_insert
insert_new link again between job event_id db =
    let (r, db') = transaction link (create_body job event_id) db in
    let db'' = between db' in (after_insert again job r db'', db'')

unfoldable pub create :
    Link
    → Link
    → Link
    → (Database → Database)
    → EvaluationJob
    → ℕ
    → Database
    → Result (EvaluationJob × Bool) × Database
unfolding lookup_key reuse insert_new
create first link again between job event_id db = elim (lookup_key first job.idempotency_key db) [
  | raise e ↦ (raise e, db)
  | ok (some existing) ↦ (reuse existing job.request_fingerprint, db)
  | ok none ↦ insert_new link again between job event_id (between db)
]
