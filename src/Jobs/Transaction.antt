-- ===== src/Jobs/Transaction.antt =====
-- A block `async with session_factory() as session: async with session.begin():`. Its body sees
-- the tables and returns the new ones; an exception rolls them back.
pub mod Rules
use codejudge_ai.Base.{
  ◌≡◌, refl, ℕ, Option, none, some, List, ◌++◌, [], ◌∷◌, Bool, true, false, if◌then◌else◌,
}
use codejudge_ai.Base.Errors.{
  Result, Error, ok, raise, integrity_error, database_error, persistence_error,
}
use codejudge_ai.Base.Table.{put, insert_row}
use codejudge_ai.Jobs.Model.{
  Database, EvaluationJob, EvaluationSnapshot, OutboxEvent, job_key, evaluation_key, event_key,
  job_checks,
}

abbrev pub Session {ℓ} : Type ℓ → Type ℓ
Session A = Database → Result (A × Database)

infixl 5 ◌>>=◌ ◌>>◌
abbrev pub ◌>>=◌ {ℓ κ} : {A : Type ℓ} {B : Type κ} → Session A → (A → Session B) → Session B
◌>>=◌ m f db = elim (m db) [ ok (a, db') ↦ f a db' | raise e ↦ raise e ]

abbrev pub ◌>>◌ {ℓ} : {B : Type ℓ} → Session (Unit {0}) → Session B → Session B
m >> k = m >>= λ _. k

abbrev pub pure {ℓ} : {A : Type ℓ} → A → Session A
pure a db = ok (a, db)

-- a call that may raise and touches no table
abbrev pub lift {ℓ} : {A : Type ℓ} → Result A → Session A
lift (ok a) db = ok (a, db)
lift (raise e) db = raise e

-- the UPDATE of a job, refused by the CHECK constraints
unfoldable pub update_job : EvaluationJob → Session (Unit {0})
unfolding job_checks
update_job job db =
    if job_checks job
    then ok (tt, record db { jobs = put job_key job db.jobs })
    else raise integrity_error

-- an UPDATE that passes the checks
pub update_job-ok :
    (job : EvaluationJob) (db : Database)
    → job_checks job ≡ true
    → update_job job db ≡ ok (tt, record db { jobs = put job_key job db.jobs })
unfolding update_job
update_job-ok job db h = rw h

-- `session.add` of an evaluation row
unfoldable pub add_evaluation : EvaluationSnapshot → Session (Unit {0})
add_evaluation snapshot db = elim (insert_row evaluation_key snapshot db.evaluations) [
  | none ↦ raise integrity_error
  | some rows ↦ ok (tt, record db { evaluations = rows })
]

-- `session.add` of an outbox row
unfoldable pub add_event : OutboxEvent → Session (Unit {0})
add_event event db = elim (insert_row event_key event db.outbox) [
  | none ↦ raise integrity_error
  | some rows ↦ ok (tt, record db { outbox = rows })
]

-- How the database server answers: `lost_reply` commits, and the client sees an error.
pub data Link : Type 0 where
  up down lost_reply : Link

-- Commit on success, roll back on an exception.
unfoldable pub commit {ℓ} : {A : Type ℓ} → Result (A × Database) → Database → Result A × Database
commit (ok (a, db')) db = (ok a, db')
commit (raise e) db = (raise e, db)

unfoldable pub transaction {ℓ} : {A : Type ℓ} → Link → Session A → Database → Result A × Database
unfolding commit
transaction up body db = commit (body db) db
transaction down body db = (raise database_error, db)
transaction lost_reply body db = (raise database_error, (commit (body db) db).1)

-- `except SQLAlchemyError: raise PersistenceError`, of which IntegrityError is a subclass
abbrev pub as_persistence {ℓ} : {A : Type ℓ} → Result A → Result A
as_persistence (raise integrity_error) = raise persistence_error
as_persistence (raise database_error) = raise persistence_error
as_persistence r = r

-- the whole try statement of most methods
unfoldable pub persistent {ℓ} : {A : Type ℓ} → Link → Session A → Database → Result A × Database
unfolding transaction
persistent link body db = let (r, db') = transaction link body db in (as_persistence r, db')
