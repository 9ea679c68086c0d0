-- ===== src/Jobs/Repository/Outbox.antt =====
-- ready_outbox, mark_outbox_published and mark_outbox_failed of app/jobs/repositories.py.
use codejudge_ai.Base.{
  ℕ, ◌+◌, Bool, true, false, none, some, List, ltb, leb, ◌==◌, if◌then◌else◌, ◌&&◌, ◌||◌, not,
  is_some,
}
use codejudge_ai.Base.Errors.{Result, ok}
use codejudge_ai.Base.Select.{select}
use codejudge_ai.Base.Table.{find, put}
use codejudge_ai.Jobs.Model.{Database, OutboxEvent, event_key}
use codejudge_ai.Jobs.Retry.{retry_delay_seconds}
use codejudge_ai.Jobs.Transaction.{Session, Link, ◌>>=◌, pure, lift, persistent}

abbrev pub is_ready : ℕ → OutboxEvent → Bool
is_ready now event = not (is_some event.published_at) && leb event.next_attempt_at now

-- ORDER BY created_at, event_id
abbrev pub older : OutboxEvent → OutboxEvent → Bool
older a b =
    ltb a.created_at b.created_at || (a.created_at == b.created_at && ltb a.event_id b.event_id)

unfoldable pub ready_events : ℕ → ℕ → List OutboxEvent → List OutboxEvent
ready_events now limit outbox = select (is_ready now) older limit outbox

unfoldable pub ready_outbox : Link → ℕ → ℕ → Database → Result (List OutboxEvent) × Database
unfolding ready_events persistent
ready_outbox link now limit = persistent link λ db. ok (ready_events now limit db.outbox, db)

-- the UPDATE of an event; its CHECK constraints hold of every value
abbrev pub update_event : OutboxEvent → Session (Unit {0})
update_event event db = ok (tt, record db { outbox = put event_key event db.outbox })

abbrev pub published : OutboxEvent → ℕ → OutboxEvent
published event now = record event {
  published_at = some now;
  attempt_count = event.attempt_count + 1;
  last_error_code = none;
}

unfoldable pub publish_event : OutboxEvent → ℕ → Session Bool
publish_event event now db =
    if is_some event.published_at
    then ok (true, db)
    else (update_event (published event now) >>= λ _. pure true) db

unfoldable pub published_body : ℕ → ℕ → Session Bool
unfolding publish_event
published_body event_id now db = elim (find event_key event_id db.outbox) [
  | none ↦ pure false db
  | some event ↦ publish_event event now db
]

unfoldable pub mark_outbox_published : Link → ℕ → ℕ → Database → Result Bool × Database
unfolding published_body persistent
mark_outbox_published link event_id now = persistent link (published_body event_id now)

abbrev pub deferred : OutboxEvent → ℕ → ℕ → OutboxEvent
deferred event now delay = record event {
  attempt_count = event.attempt_count + 1;
  last_error_code = some "queue_unavailable";
  next_attempt_at = now + delay;
}

unfoldable pub defer_event : OutboxEvent → ℕ → ℕ → Session Bool
unfolding retry_delay_seconds
defer_event event now base db =
    if is_some event.published_at
    then ok (false, db)
    else (do
      delay ← lift (retry_delay_seconds (event.attempt_count + 1) base)
      update_event (deferred event now delay) >>= λ _. pure true)
        db

unfoldable pub failed_body : ℕ → ℕ → ℕ → Session Bool
unfolding defer_event
failed_body event_id now base db = elim (find event_key event_id db.outbox) [
  | none ↦ pure false db
  | some event ↦ defer_event event now base db
]

unfoldable pub mark_outbox_failed : Link → ℕ → ℕ → ℕ → Database → Result Bool × Database
unfolding failed_body persistent
mark_outbox_failed link event_id now base = persistent link (failed_body event_id now base)
