-- ===== src/Jobs/Invariant/Complete.antt =====
-- complete: what it does to a consistent database, and that it keeps it consistent.
use mathlib.Core.Path.{subst}
use codejudge_ai.Base.{
  refl, Bool, Option-cases, if-elim, ℕ, ◌∙◌, ◌≡◌, ◌≢◌, sym, true, false, String, arith, List, [],
  ◌∷◌, ◌++◌, is_some, if◌then◌else◌, ◌==◌, ==_iff, Bool-cases, inl, inr,
}
use codejudge_ai.Base.Errors.{ok}
use codejudge_ai.Base.Table.{
  find, put, insert_row, find-append, Distinct-put, All-put, All-put_other, key-find,
}
use codejudge_ai.Jobs.Invariant.Claim.{runs_for}
use codejudge_ai.Jobs.Invariant.Keeps.{Keeps}
use codejudge_ai.Jobs.Transaction.Rules.{if-Ensures, found-Ensures, transaction-Ensures}
use codejudge_ai.Jobs.Invariant.{IsSound, IsCovered, IsStored, IsConsistent, IsHeld, find-IsHeld}
use codejudge_ai.Jobs.Model.{
  Database, EvaluationJob, EvaluationSnapshot, job_key, evaluation_key, job_checks,
}
use codejudge_ai.Jobs.Repository.Finish.{
  finished, complete_job, complete_body, after_complete, complete,
}
use codejudge_ai.Jobs.State.{is_completed, is_running}
use codejudge_ai.Jobs.Transaction.{
  Link, up, down, lost_reply, Session, commit, update_job-ok, add_evaluation, transaction,
}

abbrev pub with_snapshot : Database → EvaluationJob → EvaluationSnapshot → ℕ → Database
with_snapshot db job snapshot now = record db {
  jobs = put job_key (finished job now) db.jobs;
  evaluations = db.evaluations ++ snapshot ∷ [];
}

finished-IsSound :
    (job : EvaluationJob) (now : ℕ)
    → IsSound job
    → is_running job.status ≡ true
    → IsSound (finished job now)
finished-IsSound job now s r = ground arith

finished-job_checks :
    (job : EvaluationJob) (now : ℕ) → IsSound job → job_checks (finished job now) ≡ true
unfolding job_checks
finished-job_checks job now s = ground arith

add_evaluation-ok :
    (snapshot : EvaluationSnapshot) (db : Database)
    → is_some (find evaluation_key snapshot.evaluation_id db.evaluations) ≡ false
    → add_evaluation snapshot db
      ≡ ok (tt, record db { evaluations = db.evaluations ++ snapshot ∷ [] })
unfolding add_evaluation insert_row
add_evaluation-ok snapshot db h = rw (h, add_evaluation, insert_row)

-- The snapshot is stored with the status, and no IntegrityError is met.
pub complete_job-eq :
    (job : EvaluationJob) (worker_id : String) (snapshot : EvaluationSnapshot) (now : ℕ)
    (db : Database)
    → IsHeld db job
    → snapshot.evaluation_id ≡ job.evaluation_id
    → complete_job job worker_id snapshot now db ≡ (
        if is_completed job.status
        then ok (true, db)
        else if runs_for job worker_id
        then ok (true, with_snapshot db job snapshot now)
        else ok (false, db))
unfolding complete_job
complete_job-eq job worker_id snapshot now db h e = ground (
  arith,
  h.sound,
  h.stored,
  ap_stored,
  add_evaluation-ok snapshot db,
  finished-job_checks job now h.sound,
  update_job-ok (finished job now) (record db { evaluations = db.evaluations ++ snapshot ∷ [] }),
)
  where
    ap_stored :
        is_some (find evaluation_key snapshot.evaluation_id db.evaluations)
        ≡ is_completed job.status
    ap_stored = rw e h.stored

-- The other jobs keep what is stored of them.
IsStored-other :
    (evaluations : List EvaluationSnapshot) (snapshot : EvaluationSnapshot) (job : EvaluationJob)
    → snapshot.evaluation_id ≢ job.evaluation_id
    → IsStored evaluations job
    → IsStored (evaluations ++ snapshot ∷ []) job
unfolding find
IsStored-other evaluations snapshot job n t =
    ground (arith, find-append evaluation_key job.evaluation_id evaluations (snapshot ∷ []))

stored_self :
    (evaluations : List EvaluationSnapshot) (snapshot : EvaluationSnapshot) (k : ℕ)
    → snapshot.evaluation_id ≡ k
    → is_some (find evaluation_key k (evaluations ++ snapshot ∷ [])) ≡ true
unfolding find
stored_self evaluations snapshot k e =
    ground (arith, find-append evaluation_key k evaluations (snapshot ∷ []))

with_snapshot-IsConsistent :
    (db : Database) (job : EvaluationJob) (snapshot : EvaluationSnapshot) (now : ℕ)
    → IsConsistent db
    → IsHeld db job
    → is_running job.status ≡ true
    → snapshot.evaluation_id ≡ job.evaluation_id
    → IsConsistent (with_snapshot db job snapshot now)
with_snapshot-IsConsistent db job snapshot now c h r e = record {
  distinct = Distinct-put job_key (finished job now) db.jobs c.distinct;
  sound =
      All-put job_key IsSound (finished job now) db.jobs (finished-IsSound job now h.sound r)
        c.sound;
  covered =
      All-put job_key (IsCovered db.outbox) (finished job now) db.jobs (λ p. absurd (ground arith))
        c.covered;
  stored =
      All-put_other job_key (IsStored db.evaluations) (IsStored (db.evaluations ++ snapshot ∷ []))
        (finished job now) db.jobs c.distinct
        (stored_self db.evaluations snapshot job.evaluation_id e)
        (λ other n t. IsStored-other db.evaluations snapshot other (ground arith) t) c.stored;
}

complete_job-Keeps :
    (worker_id : String) (snapshot : EvaluationSnapshot) (now : ℕ) (db : Database)
    → IsConsistent db
    → (job : EvaluationJob) → snapshot.evaluation_id ≡ job.evaluation_id
    → IsHeld db job
    → Keeps (complete_job job worker_id snapshot now db)
complete_job-Keeps worker_id snapshot now db c job e h =
    rw (complete_job-eq job worker_id snapshot now db h e) (
      if-Ensures IsConsistent (is_completed job.status) _ _ (λ _. c)
        (λ _.
          if-Ensures IsConsistent (runs_for job worker_id) _ _
            (λ p. with_snapshot-IsConsistent db job snapshot now c h (ground arith) e) (λ _. c)))

complete_transaction-IsConsistent :
    (link : Link) (evaluation_id : ℕ) (worker_id : String) (snapshot : EvaluationSnapshot) (now : ℕ)
    (db : Database)
    → IsConsistent db
    → snapshot.evaluation_id ≡ evaluation_id
    → IsConsistent (transaction link (complete_body evaluation_id worker_id snapshot now) db).1
unfolding complete_body complete_job
complete_transaction-IsConsistent link evaluation_id worker_id snapshot now db c e =
    transaction-Ensures IsConsistent link (complete_body evaluation_id worker_id snapshot now) db c
      (found-Ensures IsConsistent (find job_key evaluation_id db.jobs) false db
        (λ job. complete_job job worker_id snapshot now db) c
        (λ job found.
          complete_job-Keeps worker_id snapshot now db c job
            (e ∙ sym (key-find job_key evaluation_id db.jobs job found))
            (find-IsHeld db evaluation_id job c found)))

-- the body raises nothing on consistent tables
complete_body-ok :
    (evaluation_id : ℕ) (worker_id : String) (snapshot : EvaluationSnapshot) (now : ℕ)
    (db : Database)
    → IsConsistent db
    → snapshot.evaluation_id ≡ evaluation_id
    → (recorded : Bool) × (db' : Database) × (complete_body evaluation_id worker_id snapshot now db
        ≡ ok (recorded, db'))
unfolding complete_body
complete_body-ok evaluation_id worker_id snapshot now db c same =
    elim (Option-cases (find job_key evaluation_id db.jobs)) [
      | inl e ↦ (false, db, ground (arith, e))
      | inr (job, e) ↦
          let own = same ∙ sym (key-find job_key evaluation_id db.jobs job e) in
          let h =
            complete_job-eq job worker_id snapshot now db (find-IsHeld db evaluation_id job c e)
              own in
          let (recorded, db', r) : (recorded : Bool) × (db' : Database) × (complete_job job
                  worker_id snapshot now db
                ≡ ok (recorded, db')) =
            rw h (
              if-elim (λ r. (recorded : Bool) × (db' : Database) × (r ≡ ok (recorded, db')))
                (is_completed job.status) _ _ (true, db, refl)
                (if-elim (λ r. (recorded : Bool) × (db' : Database) × (r ≡ ok (recorded, db')))
                  (runs_for job worker_id) _ _ (true, _, refl) (false, db, refl))) in
          (recorded, db', ground (arith, e, r))
    ]

-- so that no IntegrityError is met, and the tables are those of the transaction
after_transaction :
    (link again : Link) (between : Database → Database) (evaluation_id : ℕ) (body : Session Bool)
    (recorded : Bool) (db db' : Database)
    → body db ≡ ok (recorded, db')
    → (after_complete again between evaluation_id
        (transaction link body db).0
        (transaction link body db).1).1
      ≡ (transaction link body db).1
unfolding after_complete transaction commit
after_transaction up again between evaluation_id body recorded db db' h = rw h refl
after_transaction down again between evaluation_id body recorded db db' h = refl
after_transaction lost_reply again between evaluation_id body recorded db db' h = refl

pub complete-tables :
    (link again : Link) (between : Database → Database) (evaluation_id : ℕ) (worker_id : String)
    (snapshot : EvaluationSnapshot) (now : ℕ) (db : Database)
    → IsConsistent db
    → snapshot.evaluation_id ≡ evaluation_id
    → (complete link again between evaluation_id worker_id snapshot now db).1
      ≡ (transaction link (complete_body evaluation_id worker_id snapshot now) db).1
unfolding complete
complete-tables link again between evaluation_id worker_id snapshot now db c same =
    let (recorded, db', h) = complete_body-ok evaluation_id worker_id snapshot now db c same in
    let own : (snapshot.evaluation_id == evaluation_id) ≡ true = ground (arith, same) in
    rw own (
      after_transaction link again between evaluation_id
        (complete_body evaluation_id worker_id snapshot now) recorded db db' h)

-- A completion keeps the tables consistent: the snapshot and the status are stored together or not
-- at all.
pub complete-IsConsistent :
    (link again : Link) (between : Database → Database) (evaluation_id : ℕ) (worker_id : String)
    (snapshot : EvaluationSnapshot) (now : ℕ) (db : Database)
    → IsConsistent db
    → IsConsistent (complete link again between evaluation_id worker_id snapshot now db).1
unfolding complete
complete-IsConsistent link again between evaluation_id worker_id snapshot now db c =
    elim (Bool-cases (snapshot.evaluation_id == evaluation_id)) [
      | inl same ↦
          let own = (==_iff _ _).0 same in
          subst IsConsistent
            (sym (complete-tables link again between evaluation_id worker_id snapshot now db c own))
            (complete_transaction-IsConsistent link evaluation_id worker_id snapshot now db c own)
      | inr other ↦ rw (other, complete) c
    ]
