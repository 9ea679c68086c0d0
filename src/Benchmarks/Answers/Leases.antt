-- ===== src/Benchmarks/Answers/Leases.antt =====
-- A lease that was renewed is in the tables.
use codejudge_ai.Benchmarks.Answers.{persistent-ok, found-updated}
use mathlib.Core.Path.{subst}
use codejudge_ai.Base.{
  ℕ, ◌+◌, ◌≡◌, refl, ap, arith, true, not, ◌||◌, inl, inr, String, Option, none, some, Option-cases,
  str_eq_iff,
}
use codejudge_ai.Base.Errors.{Result, ok, ◌>>=◌, >>=-eq-ok}
use codejudge_ai.Base.Table.{find}
use codejudge_ai.Benchmarks.Model.{
  BenchmarkSample, BenchmarkTables, sample_key, is_active, update_sample,
}
use codejudge_ai.Benchmarks.Samples.{is_worker, is_leased, renew_sample, renew_lease}
use codejudge_ai.Jobs.Transaction.{Link}

-- the lease of the worker on the sample
pub record HasLease (db : BenchmarkTables) (sample_id : ℕ) (worker_id : String) (expires : ℕ)
    : Type 0 where
  pub sample : BenchmarkSample
  pub found : find sample_key sample_id db.samples ≡ some sample
  pub worker : sample.worker_id ≡ some worker_id
  pub lease : sample.lease_expires_at ≡ some expires
  pub active : is_active sample.status ≡ true

is_worker-eq :
    (holder : Option String) (worker_id : String)
    → is_worker holder worker_id ≡ true
    → holder ≡ some worker_id
is_worker-eq none worker_id h = absurd (cc)
is_worker-eq (some holder) worker_id h = ground (arith, str_eq_iff holder worker_id)

renew_sample-HasLease :
    (sample_id : ℕ) (sample : BenchmarkSample) (worker_id : String) (now lease expires : ℕ)
    (db db' : BenchmarkTables)
    → find sample_key sample_id db.samples ≡ some sample
    → renew_sample sample worker_id now lease db ≡ ok (some expires, db')
    → (expires ≡ now + lease) × HasLease db' sample_id worker_id expires
unfolding renew_sample
renew_sample-HasLease sample_id sample worker_id now lease expires db db' e h =
    let row = record sample { lease_expires_at = some (now + lease); updated_at = now } in
    let answer : BenchmarkTables → Result (Option ℕ × BenchmarkTables) =
      λ updated. ok (some (now + lease), updated) in
    let body : Result (Option ℕ × BenchmarkTables) = update_sample row db >>= answer in
    let lost =
      not (is_worker sample.worker_id worker_id) || not (is_leased sample.lease_expires_at now) in
    let idle = not (is_active sample.status) in
    let made : body ≡ ok (some expires, db') = ground arith in
    let owner : is_worker sample.worker_id worker_id ≡ true = ground arith in
    let working : is_active sample.status ≡ true = ground arith in
    let found = >>=-eq-ok (update_sample row db) answer made in
    let same : found.0 ≡ db' = ground (arith, found.2) in
    let until : now + lease ≡ expires = ground (arith, found.2) in
    (
      omega (arith, until),
      record {
        sample = row;
        found =
            found-updated sample_id sample row db db' e refl
              (subst (λ d. update_sample row db ≡ ok d) {x = found.0} same found.1);
        worker = is_worker-eq sample.worker_id worker_id owner;
        lease = ap some until;
        active = working;
      },
    )

pub renew_lease-HasLease :
    (link : Link) (sample_id : ℕ) (worker_id : String) (now lease expires : ℕ)
    (db db' : BenchmarkTables)
    → renew_lease link sample_id worker_id now lease db ≡ (ok (some expires), db')
    → (expires ≡ now + lease) × HasLease db' sample_id worker_id expires
unfolding renew_lease
renew_lease-HasLease link sample_id worker_id now lease expires db db' h =
    let made = persistent-ok link _ db (some expires) db' h in
    elim (Option-cases (find sample_key sample_id db.samples)) [
      | inl e ↦ absurd (ground (arith, e, made))
      | inr (sample, e) ↦
          renew_sample-HasLease sample_id sample worker_id now lease expires db db' e
            (ground (arith, e, made))
    ]
