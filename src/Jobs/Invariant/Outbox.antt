-- ===== src/Jobs/Invariant/Outbox.antt =====
-- mark_outbox_published and mark_outbox_failed keep every pending job announced.
use mathlib.Core.Path.{subst}
use codejudge_ai.Base.{
  ℕ, ◌≤◌, ◌≡◌, ◌≢◌, refl, sym, true, false, some, arith, is_some, inl, inr, List, All, Any, All-map,
  All-both, if◌then◌else◌, ◌*◌, ◌^◌,
}
use codejudge_ai.Base.Errors.{ok}
use codejudge_ai.Base.Table.{find, put, Any-put, Any-put_other, find-key_self, key-find}
use codejudge_ai.Jobs.Invariant.Keeps.{Keeps}
use codejudge_ai.Jobs.Transaction.Rules.{if-Ensures, found-Ensures, persistent-Ensures}
use codejudge_ai.Jobs.Invariant.{IsConsistent, IsCovered, IsDispensable, Covers}
use codejudge_ai.Jobs.Model.{Database, EvaluationJob, OutboxEvent, event_key}
use codejudge_ai.Jobs.Repository.Outbox.{
  published, publish_event, published_body, mark_outbox_published, deferred, defer_event,
  failed_body, mark_outbox_failed,
}
use codejudge_ai.Jobs.Retry.{retry_delay_seconds-suc}
use codejudge_ai.Jobs.Transaction.{Link}

-- An event that is moved to no earlier time still covers its job.
put_event-IsConsistent :
    (db : Database) (event old : OutboxEvent)
    → IsConsistent db
    → find event_key event.event_id db.outbox ≡ some old
    → event.aggregate_id ≡ old.aggregate_id
    → old.next_attempt_at ≤ event.next_attempt_at
    → IsConsistent (record db { outbox = put event_key event db.outbox })
put_event-IsConsistent db event old c found same later = record {
  distinct = c.distinct;
  sound = c.sound;
  covered =
      All-map (IsCovered db.outbox) (IsCovered (put event_key event db.outbox))
        (λ job h p.
          Any-put event_key (Covers job) event old db.outbox found
            (λ q. (ground arith, omega arith)) (h p))
        db.jobs c.covered;
  stored = c.stored;
}

publish_event-Keeps :
    (event_id now : ℕ) (db : Database)
    → IsConsistent db
    → (event : OutboxEvent) → find event_key event_id db.outbox ≡ some event
    → Keeps (publish_event event now db)
unfolding publish_event
publish_event-Keeps event_id now db c event e =
    if-Ensures IsConsistent (is_some event.published_at) _ _ (λ _. c)
      (λ _.
        put_event-IsConsistent db (published event now) event c
          (find-key_self event_key event_id db.outbox event e) refl (omega arith))

-- Publication keeps the tables consistent.
pub mark_outbox_published-IsConsistent :
    (link : Link) (event_id now : ℕ) (db : Database)
    → IsConsistent db
    → IsConsistent (mark_outbox_published link event_id now db).1
unfolding mark_outbox_published publish_event
mark_outbox_published-IsConsistent link event_id now db c =
    persistent-Ensures IsConsistent link (published_body event_id now) db c (
      found-Ensures IsConsistent (find event_key event_id db.outbox) false db
        (λ event. publish_event event now db) c (publish_event-Keeps event_id now db c))

pub defer_event-eq :
    (event : OutboxEvent) (now base : ℕ) (db : Database)
    → defer_event event now base db ≡ (
        if is_some event.published_at
        then ok (false, db)
        else ok (
          true,
          record db {
            outbox = put event_key (deferred event now (base * 3 ^ event.attempt_count)) db.outbox;
          },
        ))
unfolding defer_event
defer_event-eq event now base db = ground (arith, retry_delay_seconds-suc event.attempt_count base)

-- An event that is put off to a time when its job is due still covers it.
put_off-IsCovered :
    (event : OutboxEvent) (event_id now delay : ℕ) (outbox : List OutboxEvent) (job : EvaluationJob)
    → find event_key event_id outbox ≡ some event
    → IsCovered outbox job
    → IsDispensable outbox event_id now job
    → IsCovered (put event_key (deferred event now delay) outbox) job
put_off-IsCovered event event_id now delay outbox job e covered ready pending =
    elim (ready pending) [
      | inl due ↦
          Any-put event_key (Covers job) (deferred event now delay) event outbox
            (find-key_self event_key event_id outbox event e) (λ q. (q.0, omega arith))
            (covered pending)
      | inr other ↦ Any-put_other event_key (Covers job) (deferred event now delay) outbox (
          subst (λ k. Any (λ x. (event_key x ≢ k) × Covers job x) outbox)
            (sym (key-find event_key event_id outbox event e)) other)
    ]

defer_event-Keeps :
    (event_id now base : ℕ) (db : Database)
    → IsConsistent db
    → All (IsDispensable db.outbox event_id now) db.jobs
    → (event : OutboxEvent) → find event_key event_id db.outbox ≡ some event
    → Keeps (defer_event event now base db)
defer_event-Keeps event_id now base db c ready event e =
    let delay = base * 3 ^ event.attempt_count in
    rw (defer_event-eq event now base db) (
      if-Ensures IsConsistent (is_some event.published_at) _ _ (λ _. c)
        (λ _. record {
          distinct = c.distinct;
          sound = c.sound;
          covered =
              All-map (λ job. IsCovered db.outbox job × IsDispensable db.outbox event_id now job)
                (IsCovered (put event_key (deferred event now delay) db.outbox))
                (λ job h. put_off-IsCovered event event_id now delay db.outbox job e h.0 h.1)
                db.jobs
                (All-both (IsCovered db.outbox) (IsDispensable db.outbox event_id now) db.jobs
                  c.covered ready);
          stored = c.stored;
        }))

-- A failed publication keeps the tables consistent, if every pending job that is not due has
-- another event.
pub mark_outbox_failed-IsConsistent :
    (link : Link) (event_id now base : ℕ) (db : Database)
    → IsConsistent db
    → All (IsDispensable db.outbox event_id now) db.jobs
    → IsConsistent (mark_outbox_failed link event_id now base db).1
unfolding mark_outbox_failed defer_event
mark_outbox_failed-IsConsistent link event_id now base db c ready =
    persistent-Ensures IsConsistent link (failed_body event_id now base) db c (
      found-Ensures IsConsistent (find event_key event_id db.outbox) false db
        (λ event. defer_event event now base db) c (defer_event-Keeps event_id now base db c ready))
