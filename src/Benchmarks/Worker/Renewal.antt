-- ===== src/Benchmarks/Worker/Renewal.antt =====
-- A confirmed renewal is a lease of this worker in the tables.
use mathlib.Core.Path.{subst}
use codejudge_ai.Base.{
  sym, ap, ℕ, ◌+◌, ◌<◌, ◌≡◌, refl, arith, inl, inr, String, Option, none, some, List, [], ◌∷◌, Any,
  leb, if◌then◌else◌, if-cases,
}
use codejudge_ai.Base.Errors.{Result, ok, raise}
use codejudge_ai.Benchmarks.Answers.Leases.{HasLease, renew_lease-HasLease}
use codejudge_ai.Benchmarks.Model.{BenchmarkTables}
use codejudge_ai.Benchmarks.Samples.{renew_lease}
use codejudge_ai.Benchmarks.Worker.Lease.{
  LeaseHeartbeatState, Round, Confirmed, after_renewal, renew_before_expiry,
}

-- A round that renews the lease: it was tried before the old expiry, and its answer came before the
-- new one.
abbrev pub Renews : (lease_seconds expires : ℕ) → LeaseHeartbeatState → Round → Type 0
Renews lease_seconds expires state r =
    (r.checked_at < expires)
    × (state.lease_expires_at ≡ r.started_at + lease_seconds)
    × (r.finished_at < state.lease_expires_at)

module _ (sample_id : ℕ) (worker_id : String) (lease_seconds : ℕ) where
  abbrev pub IsConfirmed :
      List Round → (expires count : ℕ) → LeaseHeartbeatState → BenchmarkTables → Type 0
  IsConfirmed rounds expires count state db =
      HasLease db sample_id worker_id state.lease_expires_at
      × (state.renewal_count ≡ count + 1)
      × Any (Renews lease_seconds expires state) rounds

  after_renewal-IsConfirmed :
      (r : Round) (rounds : List Round) (expires count : ℕ) (before : BenchmarkTables)
      (retry : BenchmarkTables → Confirmed) (answer : Result (Option ℕ) × BenchmarkTables)
      (state : LeaseHeartbeatState) (db' : BenchmarkTables)
      → r.checked_at < expires
      → renew_lease r.link sample_id worker_id r.started_at lease_seconds before ≡ answer
      → ((d : BenchmarkTables)
          → retry d ≡ (some state, db')
          → IsConfirmed rounds expires count state db')
      → after_renewal sample_id worker_id lease_seconds r expires count retry answer
        ≡ (some state, db')
      → IsConfirmed (r ∷ rounds) expires count state db'
  unfolding after_renewal
  after_renewal-IsConfirmed r rounds expires count before retry (raise e, db) state db' t a f h =
      if-cases (leb expires r.failed_at) (none, db) (if r.stopped then (none, db) else retry db)
        (some state, db') h (λ _ bad. absurd (cc))
        (λ _ h'.
          if-cases r.stopped (none, db) (retry db) (some state, db') h' (λ _ bad. absurd (cc))
            (λ _ again. let c = f db again in (c.0, c.1, inr c.2)))
  after_renewal-IsConfirmed r rounds expires count before retry (ok none, db) state db' t a f h =
      absurd (cc)
  after_renewal-IsConfirmed r rounds expires count before retry (ok (some renewed), db) state db' t
        a f h =
      let made : LeaseHeartbeatState = record {
        lease_expires_at = renewed;
        renewal_count = count + 1;
      } in
      if-cases (leb renewed r.finished_at) (none, db) (some made, db) (some state, db') h
        (λ _ bad. absurd (cc))
        (λ late h'.
          let held =
            renew_lease-HasLease r.link sample_id worker_id r.started_at lease_seconds renewed
              before db a in
          let same : made ≡ state = ground (arith, h') in
          let tables : db ≡ db' = ap (λ c. c.1) h' in
          let until : renewed ≡ state.lease_expires_at = ap (λ m. m.lease_expires_at) same in
          (
            subst (λ d. HasLease d sample_id worker_id state.lease_expires_at) tables
                (subst (λ n. HasLease db sample_id worker_id n) until held.1),
            ap (λ m. m.renewal_count) (sym same),
            inl (t, omega (arith, until, held.0), ground (arith, until, late)),
          ))

  -- A confirmed renewal is a lease in the tables: the sample is active, held by this worker, and
  -- its lease ends when the answer says. The count of renewals is one more, and in some round the
  -- call was made before the old lease ended, asked for lease_seconds from its start, and was
  -- answered before the new lease ends.
  pub renew_before_expiry-IsConfirmed :
      (rounds : List Round) (expires count : ℕ) (db : BenchmarkTables) (state : LeaseHeartbeatState)
      (db' : BenchmarkTables)
      → renew_before_expiry sample_id worker_id lease_seconds rounds expires count db
        ≡ (some state, db')
      → IsConfirmed rounds expires count state db'
  unfolding renew_before_expiry
  renew_before_expiry-IsConfirmed [] expires count db state db' h = absurd (cc)
  renew_before_expiry-IsConfirmed (r ∷ rounds) expires count db state db' h =
      let retry = renew_before_expiry sample_id worker_id lease_seconds rounds expires count in
      let answer =
        renew_lease r.link sample_id worker_id r.started_at lease_seconds (r.others db) in
      if-cases (leb expires r.checked_at) (none, db)
        (after_renewal sample_id worker_id lease_seconds r expires count retry answer)
        (some state, db') h (λ _ bad. absurd (cc))
        (λ early h'.
          after_renewal-IsConfirmed r rounds expires count (r.others db) retry answer state db'
            (ground arith) refl
            (λ d again. renew_before_expiry-IsConfirmed rounds expires count d state db' again) h')
