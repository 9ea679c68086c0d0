-- ===== src/Jobs/Repository.antt =====
-- SqlAlchemyEvaluationJobRepository of app/jobs/repositories.py. A method takes how the database
-- answers (Link), the id that `uuid4` returns where it makes one, and the time as arguments; row
-- locks make each method one step on the tables.
pub mod Claim
pub mod Finish
pub mod Recover
pub mod Outbox
pub mod Create
