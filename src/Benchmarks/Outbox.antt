-- ===== src/Benchmarks/Outbox.antt =====
-- ready_outbox, mark_outbox_published, mark_outbox_failed and `_update_outbox` of
-- app/benchmarks/repositories.py. The columns of an event are those of the jobs' outbox.
use codejudge_ai.Base.{ℕ, ◌+◌, Bool, true, false, none, some, List, is_some, if◌then◌else◌}
use codejudge_ai.Base.Errors.{Result, ok, ◌>>=◌}
use codejudge_ai.Base.Table.{find, put}
use codejudge_ai.Benchmarks.Model.{BenchmarkTables, persistent}
use codejudge_ai.Jobs.Model.{OutboxEvent, event_key}
use codejudge_ai.Jobs.Repository.Outbox.{ready_events, published, deferred}
use codejudge_ai.Jobs.Retry.{retry_delay_seconds}
use codejudge_ai.Jobs.Transaction.{Link}

unfoldable pub ready_outbox :
    Link → (now limit : ℕ) → BenchmarkTables → Result (List OutboxEvent) × BenchmarkTables
unfolding ready_events
ready_outbox link now limit = persistent link λ db. ok (ready_events now limit db.outbox, db)

abbrev pub update_event : OutboxEvent → BenchmarkTables → BenchmarkTables
update_event event db = record db { outbox = put event_key event db.outbox }

-- the assignments to an event that is not published yet
unfoldable pub assign :
    (is_published : Bool)
    → OutboxEvent
    → (now retry_base : ℕ) → BenchmarkTables
    → Result (Bool × BenchmarkTables)
unfolding retry_delay_seconds
assign true event now retry_base db = ok (true, update_event (published event now) db)
assign false event now retry_base db = do
  delay ← retry_delay_seconds (event.attempt_count + 1) retry_base
  ok (true, update_event (deferred event now delay) db)

unfoldable pub update_outbox :
    Link
    → (event_id now : ℕ) (is_published : Bool) (retry_base : ℕ) → BenchmarkTables
    → Result Bool × BenchmarkTables
unfolding assign
update_outbox link event_id now is_published retry_base = persistent link λ db.
    elim (find event_key event_id db.outbox) [
      | none ↦ ok (false, db)
      | some event ↦
          (if is_some event.published_at
            then ok (is_published, db)
            else assign is_published event now retry_base db)
    ]

unfoldable pub mark_outbox_published :
    Link → (event_id now : ℕ) → BenchmarkTables → Result Bool × BenchmarkTables
unfolding update_outbox
mark_outbox_published link event_id now = update_outbox link event_id now true 0

unfoldable pub mark_outbox_failed :
    Link → (event_id now retry_base : ℕ) → BenchmarkTables → Result Bool × BenchmarkTables
unfolding update_outbox
mark_outbox_failed link event_id now retry_base = update_outbox link event_id now false retry_base
