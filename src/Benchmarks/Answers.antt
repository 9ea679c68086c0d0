-- ===== src/Benchmarks/Answers.antt =====
-- What a call on a sample has left in the tables when it answers that it was made.
pub mod Leases
pub mod Completions
pub mod Failures
use mathlib.Core.Path.{subst}
use codejudge_ai.Base.{
  ℕ, ◌+◌, ◌≡◌, refl, ap, ◌∙◌, arith, Bool, true, false, not, ◌&&◌, ◌||◌, inl, inr, String, Option,
  none, some, Option-cases, Bool-cases, is_some, ltb, str_eq, str_eq_iff, ◌==◌, if◌then◌else◌,
  if-cases,
}
use codejudge_ai.Base.Errors.{Result, integrity_error, database_error, ok, raise, ◌>>=◌, >>=-eq-ok}
use codejudge_ai.Base.Table.{find, put, find-put, key-find}
use codejudge_ai.Benchmarks.Failures.{
  record_failure, fail_sample, retry_or_end, requeued, given_up, released,
}
use codejudge_ai.Benchmarks.Model.{
  BenchmarkSample, BenchmarkSampleStatus, BenchmarkTables, Evaluation, sample_key, is_active,
  is_completed, update_sample, add_event, artifact_key, persistent, settled,
}
use codejudge_ai.Benchmarks.Runs.{finish_run_if_terminal, finish_run}
use codejudge_ai.Benchmarks.Samples.{
  is_worker, is_leased, renew_sample, renew_lease, owns_lease, finished, store_evaluation,
  complete_sample, complete,
}
use codejudge_ai.Jobs.Retry.{retry_delay_seconds}
use codejudge_ai.Jobs.Transaction.{Link, up, down, lost_reply, as_persistence}

settled-ok {ℓ} :
    {A : Type ℓ} (r : Result (A × BenchmarkTables)) (db : BenchmarkTables) (a : A)
    (db' : BenchmarkTables)
    → settled r db ≡ (ok a, db')
    → r ≡ ok (a, db')
unfolding settled
settled-ok (ok (b, d)) db a db' h = cc
settled-ok (raise integrity_error) db a db' h = absurd (cc)
settled-ok (raise database_error) db a db' h = absurd (cc)
settled-ok (raise _) db a db' h = absurd (cc)

pub persistent-ok {ℓ} :
    {A : Type ℓ} (link : Link) (body : BenchmarkTables → Result (A × BenchmarkTables))
    (db : BenchmarkTables) (a : A) (db' : BenchmarkTables)
    → persistent link body db ≡ (ok a, db')
    → body db ≡ ok (a, db')
unfolding persistent
persistent-ok up body db a db' h = settled-ok (body db) db a db' h
persistent-ok down body db a db' h = absurd (cc)
persistent-ok lost_reply body db a db' h = absurd (cc)

pub found-updated :
    (sample_id : ℕ) (sample row : BenchmarkSample) (db db' : BenchmarkTables)
    → find sample_key sample_id db.samples ≡ some sample
    → sample_key row ≡ sample_key sample
    → update_sample row db ≡ ok db'
    → find sample_key sample_id db'.samples ≡ some row
unfolding update_sample
found-updated sample_id sample row db db' e same u = ground (
  arith,
  find-put sample_key sample_id row db.samples,
  key-find sample_key sample_id db.samples sample e,
)

-- a sample that nobody works on any more
abbrev pub IsReleased : BenchmarkTables → ℕ → Type 0
IsReleased db sample_id =
    (sample : BenchmarkSample) × (find sample_key sample_id db.samples ≡ some sample)
    × (is_active sample.status ≡ false)

pub finish_run-samples :
    (run_id now : ℕ) (db : BenchmarkTables)
    → (finish_run_if_terminal run_id now db).1.samples ≡ db.samples
unfolding finish_run_if_terminal finish_run
finish_run-samples run_id now db = ground arith
