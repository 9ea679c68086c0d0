-- ===== src/Worker/Heartbeat.antt =====
-- `_renew_lease` and recover_stale of app/worker/service.py. The loop runs through the turns that its
-- surroundings list, and finds the stop event set after the last.
use codejudge_ai.Base.{ℕ, Bool, true, false, List, [], ◌∷◌}
use codejudge_ai.Base.Errors.{Result, ok, raise}
use codejudge_ai.Jobs.History.{Reach, here, next, renews, recovers, Reach-trans}
use codejudge_ai.Jobs.Model.{Database}
use codejudge_ai.Jobs.Repository.Claim.{renew_lease}
use codejudge_ai.Jobs.Repository.Recover.{recover_stale as recover_jobs}
use codejudge_ai.Jobs.Transaction.{Link}
use codejudge_ai.Worker.Process.{Worker}

-- One turn: how the database answers, the clock, and what others commit during the wait before it.
pub record Beat : Type 0 where
  pub link : Link
  pub now : ℕ
  pub others : Database → Database

-- the answer of renew_lease; a PersistenceError only defers the renewal
unfoldable pub after_renewal : (Database → Database) → Result Bool × Database → Database
after_renewal go_on (raise e, db) = go_on db
after_renewal go_on (ok false, db) = db
after_renewal go_on (ok true, db) = go_on db

-- `_renew_lease`
unfoldable pub renew_until_stopped : Worker → ℕ → List Beat → Database → Database
unfolding after_renewal
renew_until_stopped w evaluation_id [] db = db
renew_until_stopped w evaluation_id (b ∷ beats) db =
    after_renewal (renew_until_stopped w evaluation_id beats)
      (renew_lease b.link evaluation_id w.worker_id b.now w.lease_seconds (b.others db))

-- recover_stale, of at most `limit` jobs, which the repository sets by default
unfoldable pub recover_stale :
    Worker
    → Link
    → (uuid : ℕ → ℕ) (locked : ℕ → Bool) (now limit : ℕ) → Database
    → Result ℕ × Database
recover_stale w link uuid locked now limit db =
    recover_jobs link uuid locked now w.retry_base_delay_seconds limit db

-- the turns in which others only make calls of the repository
abbrev pub CallsOnly : List Beat → Type 0
CallsOnly [] = Unit {0}
CallsOnly (b ∷ beats) = ((d : Database) → Reach d (b.others d)) × CallsOnly beats

after_renewal-Reach :
    (start : Database) (go_on : Database → Database) (answer : Result Bool × Database)
    → Reach start answer.1
    → ((d : Database) → Reach d (go_on d))
    → Reach start (after_renewal go_on answer)
unfolding after_renewal
after_renewal-Reach start go_on (raise e, db) p f = Reach-trans p (f db)
after_renewal-Reach start go_on (ok false, db) p f = p
after_renewal-Reach start go_on (ok true, db) p f = Reach-trans p (f db)

-- The heartbeat is a history of calls.
pub renew_until_stopped-Reach :
    (w : Worker) (evaluation_id : ℕ) (beats : List Beat) (db : Database)
    → CallsOnly beats
    → Reach db (renew_until_stopped w evaluation_id beats db)
unfolding renew_until_stopped
renew_until_stopped-Reach w evaluation_id [] db fair = here
renew_until_stopped-Reach w evaluation_id (b ∷ beats) db fair =
    after_renewal-Reach db (renew_until_stopped w evaluation_id beats)
      (renew_lease b.link evaluation_id w.worker_id b.now w.lease_seconds (b.others db))
      (next (fair.0 db) (renews b.link evaluation_id w.worker_id b.now w.lease_seconds))
      (λ d. renew_until_stopped-Reach w evaluation_id beats d fair.1)

recover_stale-Reach :
    (w : Worker) (link : Link) (uuid : ℕ → ℕ) (locked : ℕ → Bool) (now limit : ℕ) (db : Database)
    → Reach db (recover_stale w link uuid locked now limit db).1
unfolding recover_stale
recover_stale-Reach w link uuid locked now limit db =
    next here (recovers link uuid locked now w.retry_base_delay_seconds limit)
