-- ===== src/Benchmarks/Worker/Lease.antt =====
-- `_renew_before_expiry` and `_renew_lease` of app/benchmarks/worker.py. Each loop runs through the
-- rounds that its surroundings provide, and finds the stop event set where they end. Log lines, and
-- the monotonic clock that only they use, are left out.
use codejudge_ai.Base.{ℕ, ◌+◌, Bool, String, Option, none, some, List, [], ◌∷◌, leb, if◌then◌else◌}
use codejudge_ai.Base.Errors.{Result, ok, raise}
use codejudge_ai.Benchmarks.Model.{BenchmarkTables}
use codejudge_ai.Benchmarks.Samples.{renew_lease}
use codejudge_ai.Jobs.Transaction.{Link}

pub record LeaseHeartbeatState : Type 0 where
  pub lease_expires_at : ℕ
  pub renewal_count : ℕ

-- One try to renew: how the database answers (a timeout is a call that was not made, or whose reply
-- was lost), what others commit before it, the clock when it is read, and whether the stop event is
-- set during the wait for the next try.
pub record Round : Type 0 where
  pub link : Link
  pub others : BenchmarkTables → BenchmarkTables
  pub checked_at : ℕ
  pub started_at : ℕ
  pub failed_at : ℕ
  pub finished_at : ℕ
  pub stopped : Bool

abbrev pub Confirmed : Type 0
Confirmed = Option LeaseHeartbeatState × BenchmarkTables

module _ (sample_id : ℕ) (worker_id : String) (lease_seconds : ℕ) where
  -- the answer of renew_lease; `retry` is the next round
  unfoldable pub after_renewal :
      Round
      → ℕ
      → ℕ
      → (BenchmarkTables → Confirmed)
      → Result (Option ℕ) × BenchmarkTables
      → Confirmed
  after_renewal r lease_expires_at renewal_count retry (raise e, db) =
      if leb lease_expires_at r.failed_at
      then (none, db)
      else if r.stopped
      then (none, db)
      else retry db
  after_renewal r lease_expires_at renewal_count retry (ok none, db) = (none, db)
  after_renewal r lease_expires_at renewal_count retry (ok (some renewed), db) =
      if leb renewed r.finished_at
      then (none, db)
      else (some (record { lease_expires_at = renewed; renewal_count = renewal_count + 1 }), db)

  unfoldable pub renew_before_expiry : List Round → ℕ → ℕ → BenchmarkTables → Confirmed
  unfolding after_renewal
  renew_before_expiry [] lease_expires_at renewal_count db = (none, db)
  renew_before_expiry (r ∷ rounds) lease_expires_at renewal_count db =
      if leb lease_expires_at r.checked_at
      then (none, db)
      else after_renewal r lease_expires_at renewal_count
          (renew_before_expiry rounds lease_expires_at renewal_count)
          (renew_lease r.link sample_id worker_id r.started_at lease_seconds (r.others db))

-- One turn of the heartbeat: the clock, whether the stop event is set during the wait, and the tries.
pub record Beat : Type 0 where
  pub checked_at : ℕ
  pub stopped : Bool
  pub rounds : List Round

module _ (sample_id : ℕ) (worker_id : String) (lease_seconds : ℕ) where
  abbrev after_beat :
      (LeaseHeartbeatState → BenchmarkTables → BenchmarkTables) → Confirmed → BenchmarkTables
  after_beat go_on (none, db) = db
  after_beat go_on (some state, db) = go_on state db

  -- `_renew_lease`, which returns when it is stopped or the lease is lost
  unfoldable pub heartbeat : List Beat → LeaseHeartbeatState → BenchmarkTables → BenchmarkTables
  unfolding renew_before_expiry
  heartbeat [] state db = db
  heartbeat (b ∷ beats) state db =
      if leb state.lease_expires_at b.checked_at
      then db
      else if b.stopped
      then db
      else after_beat (heartbeat beats) (
          renew_before_expiry sample_id worker_id lease_seconds b.rounds state.lease_expires_at
            state.renewal_count db)
