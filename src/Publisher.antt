-- ===== src/Publisher.antt =====
-- OutboxPublisher of app/queue/outbox.py, with the stream that RedisStreamsQueue.enqueue of
-- app/queue/redis_streams.py appends to. Log lines are left out.
pub mod Delivery
pub mod Dispatch
mod Tests
use codejudge_ai.Base.{ℕ, ◌+◌, Bool, true, false, List, [], ◌∷◌, ◌++◌}
use codejudge_ai.Base.Errors.{Error, Result, ok, raise, queue_unavailable}
use codejudge_ai.Jobs.Model.{Database, OutboxEvent}
use codejudge_ai.Jobs.Repository.Outbox.{ready_outbox, mark_outbox_published, mark_outbox_failed}
use codejudge_ai.Jobs.Transaction.{Link, up, down, lost_reply}

-- the messages that were ever appended to the stream, and the tables
pub record World : Type 0 where
  pub stream : List ℕ
  pub database : Database

-- What happens around one event: how the queue and the database answer, the clock, and what others
-- do between the two calls.
pub record Surroundings : Type 0 where
  pub queue_link : Link
  pub database_link : Link
  pub marked_at : ℕ
  pub others : World → World

unfoldable pub enqueue : Link → ℕ → World → Result (Unit {0}) × World
enqueue up evaluation_id w = (ok tt, record w { stream = w.stream ++ (evaluation_id ∷ []) })
enqueue down evaluation_id w = (raise queue_unavailable, w)
enqueue lost_reply evaluation_id w =
    (raise queue_unavailable, record w { stream = w.stream ++ (evaluation_id ∷ []) })

module _ (retry_base_delay_seconds : ℕ) where
  abbrev pub Dispatched : Type 0
  Dispatched = Result ℕ × World

  abbrev on_stream : List ℕ → Result Bool × Database → Result Bool × World
  on_stream stream (r, db) = (r, record { stream = stream; database = db })

  -- the call that follows the answer of enqueue
  unfoldable pub mark : Surroundings → OutboxEvent → Result (Unit {0}) → World → Result Bool × World
  mark s event (ok done) w =
      on_stream w.stream
        (mark_outbox_published s.database_link event.event_id s.marked_at w.database)
  mark s event (raise e) w = on_stream w.stream (
      mark_outbox_failed s.database_link event.event_id s.marked_at retry_base_delay_seconds
        w.database)

  -- one more event is published after a message was enqueued
  abbrev pub counted : Result (Unit {0}) → ℕ → ℕ
  counted (ok done) published = published + 1
  counted (raise e) published = published

  -- the rest of the loop, unless the mark raised
  unfoldable pub after_mark : (World → Dispatched) → Result Bool × World → Dispatched
  after_mark go_on (ok changed, w) = go_on w
  after_mark go_on (raise e, w) = (raise e, w)

  -- the loop; `around` tells what happens around an event
  unfoldable pub dispatch : (ℕ → Surroundings) → List OutboxEvent → ℕ → World → Dispatched
  unfolding enqueue mark after_mark
  dispatch around [] published w = (ok published, w)
  dispatch around (event ∷ events) published w =
      let s = around event.event_id in
      let answer = enqueue s.queue_link event.aggregate_id w in
      after_mark (dispatch around events (counted answer.0 published))
        (mark s event answer.0 (s.others answer.1))

  -- the answer of ready_outbox
  unfoldable pub after_ready :
      (ℕ → Surroundings) → List ℕ → Result (List OutboxEvent) × Database → Dispatched
  unfolding dispatch
  after_ready around stream (ok events, db) =
      dispatch around events 0 (record { stream = stream; database = db })
  after_ready around stream (raise e, db) = (raise e, record { stream = stream; database = db })

  unfoldable pub dispatch_once : Link → (now limit : ℕ) → (ℕ → Surroundings) → World → Dispatched
  unfolding after_ready
  dispatch_once link now limit around w =
      after_ready around w.stream (ready_outbox link now limit w.database)
