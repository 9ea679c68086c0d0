-- ===== src/Jobs/Idempotency.antt =====
-- Idempotency keys: a client that repeats a submission gets the first job.
use codejudge_ai.Base.{
  ℕ, ◌≡◌, ◌≢◌, refl, ap, ◌∙◌, arith, true, false, String, none, some, List, [], ◌∷◌, ◌++◌, any,
  str_eq, str_eq_iff, if◌then◌else◌,
}
use codejudge_ai.Base.Errors.{ok, raise, idempotency_conflict}
use codejudge_ai.Jobs.Invariant.Create.{insertable, with_new, create_body-eq}
use codejudge_ai.Jobs.Model.{Database, EvaluationJob}
use codejudge_ai.Jobs.Repository.Create.{
  has_key, find_by_key, reuse, lookup_key, insert_new, create,
}
use codejudge_ai.Jobs.Transaction.{Link, up, down, lost_reply, persistent, transaction, commit}

-- nobody else's transaction comes in between
abbrev pub alone : Database → Database
alone db = db

lookup_key-find :
    (key : String) (db : Database) → lookup_key up (some key) db ≡ ok (find_by_key key db.jobs)
unfolding lookup_key persistent transaction commit
lookup_key-find key db = refl

lookup_key-known :
    (job : EvaluationJob) (key : String) (db : Database)
    → job.idempotency_key ≡ some key
    → lookup_key up job.idempotency_key db ≡ ok (find_by_key key db.jobs)
lookup_key-known job key db k = ap (λ o. lookup_key up o db) k ∙ lookup_key-find key db

find_by_key-free :
    (key : String) (jobs : List EvaluationJob)
    → any (has_key key) jobs ≡ false
    → find_by_key key jobs ≡ none
unfolding find_by_key any
find_by_key-free key [] h = refl
find_by_key-free key (job ∷ jobs) h = ground (arith, find_by_key-free key jobs)

find_by_key-append :
    (key : String) (jobs : List EvaluationJob) (job : EvaluationJob)
    → any (has_key key) jobs ≡ false
    → has_key key job ≡ true
    → find_by_key key (jobs ++ job ∷ []) ≡ some job
unfolding find_by_key any
find_by_key-append key [] job h k = ground arith
find_by_key-append key (first ∷ jobs) job h k = ground (arith, find_by_key-append key jobs job)

-- With the database up, a submission whose key has a job answers that job and changes nothing if
-- the request is the same, and is refused as a conflict otherwise.
pub create-known :
    (link again : Link) (between : Database → Database) (job existing : EvaluationJob)
    (key : String) (event_id : ℕ) (db : Database)
    → job.idempotency_key ≡ some key
    → find_by_key key db.jobs ≡ some existing
    → create up link again between job event_id db ≡ (
        if str_eq existing.request_fingerprint job.request_fingerprint
        then (ok (existing, false), db)
        else (raise idempotency_conflict, db))
unfolding create reuse
create-known link again between job existing key event_id db k f =
    ground (arith, lookup_key-known job key db k, f)

module _ (job : EvaluationJob) (key : String) (event_id : ℕ) (db : Database)
    (k : job.idempotency_key ≡ some key) (new : insertable job event_id db ≡ true) where
  key_free : any (has_key key) db.jobs ≡ false
  key_free = ground (arith, k)

  -- the first submission stores the job, whether the reply arrives or not
  create-new :
      (link : Link)
      → link ≢ down
      → (create up link up alone job event_id db).1 ≡ with_new db job event_id
  unfolding create insert_new transaction commit
  create-new up n = ground (
    arith,
    lookup_key-known job key db k,
    find_by_key-free key db.jobs key_free,
    create_body-eq job event_id db,
  )
  create-new down n = absurd (n refl)
  create-new lost_reply n = ground (
    arith,
    lookup_key-known job key db k,
    find_by_key-free key db.jobs key_free,
    create_body-eq job event_id db,
  )

  -- A submission of a new job under a new key is committed, with the database up and nobody in
  -- between, even if the reply is lost, and is repeated with the same request: the repetition, with
  -- the database up for its lookup, answers the first job, says that it is not new, and changes
  -- nothing.
  pub create-repeated :
      (link : Link)
      → link ≢ down
      → (repeated : EvaluationJob) (link' again : Link) (between : Database → Database)
        (event_id' : ℕ)
      → repeated.idempotency_key ≡ some key
      → repeated.request_fingerprint ≡ job.request_fingerprint
      → create up link' again between repeated event_id' (create up link up alone job event_id db).1
        ≡ (ok (job, false), with_new db job event_id)
  create-repeated link n repeated link' again between event_id' same_key same_request =
      ap (λ d. create up link' again between repeated event_id' d) (create-new link n)
      ∙ create-known link' again between repeated job key event_id' (with_new db job event_id)
          same_key
          (find_by_key-append key db.jobs job key_free (ground (arith, k, str_eq_iff key key)))
      ∙ ground
          (arith, same_request, str_eq_iff job.request_fingerprint repeated.request_fingerprint)
