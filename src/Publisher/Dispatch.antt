-- ===== src/Publisher/Dispatch.antt =====
-- A dispatch of the ready events.
use mathlib.Core.Path.{subst}
use codejudge_ai.Base.{
  ℕ, ◌+◌, ◌≡◌, refl, sym, ap, ◌∙◌, arith, Bool, true, false, List, [], ◌∷◌, ◌++◌, All, length,
  is_some, All-map, Any-append_right, if-elim, Option-cases, inl, inr,
}
use codejudge_ai.Base.Errors.{Result, ok, raise}
use codejudge_ai.Base.Select.{Found, Found-select}
use codejudge_ai.Base.Table.{find, Distinct}
use codejudge_ai.Jobs.Model.{Database, OutboxEvent, event_key}
use codejudge_ai.Jobs.Repository.Outbox.{
  ready_outbox, ready_events, publish_event, published_body, mark_outbox_published, older, is_ready,
}
use codejudge_ai.Jobs.Transaction.{Link, up, down, lost_reply, persistent, transaction, commit}
use codejudge_ai.Publisher.{
  World, Surroundings, enqueue, mark, counted, after_mark, dispatch, after_ready, dispatch_once,
}
use codejudge_ai.Publisher.Delivery.{
  IsIn, HasRow, Goes, Goes-refl, Goes-trans, Arrived, enqueue-Goes, mark-Goes,
}

Arrived-grows :
    (a b : World) (id : ℕ) (answer : Result (Unit {0}))
    → Goes a b
    → Arrived a.stream id answer
    → Arrived b.stream id answer
Arrived-grows a b id (ok done) g h = g.grows id h
Arrived-grows a b id (raise e) g h = tt

after_mark-Goes :
    (base : ℕ) (start : World) (go_on : World → Result ℕ × World) (r : Result Bool × World)
    → Goes start r.1
    → ((w : World) → Goes start w → Goes w (go_on w).1)
    → Goes start (after_mark base go_on r).1
unfolding after_mark
after_mark-Goes base start go_on (ok changed, w) g f = Goes-trans g (f w g)
after_mark-Goes base start go_on (raise e, w) g f = g

-- the rows of the selected events
abbrev HasRows : World → List OutboxEvent → Type 0
HasRows w = All (λ event. HasRow w.database event.event_id event.aggregate_id)

publish_event-ok :
    (event : OutboxEvent) (now : ℕ) (db : Database)
    → (changed : Bool) × (db' : Database) × (publish_event event now db ≡ ok (changed, db'))
unfolding publish_event
publish_event-ok event now db =
    if-elim (λ r. (changed : Bool) × (db' : Database) × (r ≡ ok (changed, db')))
      (is_some event.published_at) _ _ (true, db, refl) (true, _, refl)

published_body-ok :
    (event_id now : ℕ) (db : Database)
    → (changed : Bool) × (db' : Database) × (published_body event_id now db ≡ ok (changed, db'))
unfolding published_body
published_body-ok event_id now db = elim (Option-cases (find event_key event_id db.outbox)) [
  | inl e ↦ (false, db, rw (e, published_body) refl)
  | inr (event, e) ↦
      let (changed, db', h) = publish_event-ok event now db in
      (changed, db', rw (e, published_body, h) refl)
]

mark_outbox_published-ok :
    (event_id now : ℕ) (db : Database)
    → (changed : Bool) × (db' : Database) × (mark_outbox_published up event_id now db
        ≡ (ok changed, db'))
unfolding mark_outbox_published persistent transaction commit
mark_outbox_published-ok event_id now db =
    let (changed, db', h) = published_body-ok event_id now db in (changed, db', rw h refl)

-- how many of the events were so_far, and that all of their messages are in the stream
abbrev pub Sends : List OutboxEvent → ℕ → Result ℕ × World → Type 0
Sends events so_far (answer, w) =
    (answer ≡ ok (so_far + length events)) × All (λ e. IsIn w.stream e.aggregate_id) events

Sends-cons :
    (event : OutboxEvent) (events : List OutboxEvent) (so_far : ℕ) (r : Result ℕ × World)
    → Sends events (so_far + 1) r
    → IsIn r.1.stream event.aggregate_id
    → Sends (event ∷ events) so_far r
Sends-cons event events so_far r h arrived = (h.0 ∙ ap ok (omega arith), (arrived, h.1))

module _ (base : ℕ) (around : ℕ → Surroundings)
    (fair : (event_id : ℕ) (w : World) → Goes w ((around event_id).others w)) where
  -- the world after the mark of an event
  marked : OutboxEvent → World → Result Bool × World
  marked event w =
      let s = around event.event_id in
      let answer = enqueue s.queue_link event.aggregate_id w in
      mark base s event answer.0 (s.others answer.1)

  marked-Goes :
      (event : OutboxEvent) (w : World)
      → HasRow w.database event.event_id event.aggregate_id
      → Goes w (marked event w).1
  unfolding marked
  marked-Goes event w row =
      let s = around event.event_id in
      let answer = enqueue s.queue_link event.aggregate_id w in
      let sent = enqueue-Goes s.queue_link event.aggregate_id w in
      let later = fair event.event_id answer.1 in
      let both = Goes-trans sent.0 later in
      Goes-trans both (
        mark-Goes base s event answer.0 (s.others answer.1)
          (both.kept event.event_id event.aggregate_id row)
          (Arrived-grows answer.1 (s.others answer.1) event.aggregate_id answer.0 later sent.1))

  HasRows-Goes :
      (events : List OutboxEvent) (a b : World) → Goes a b → HasRows a events → HasRows b events
  HasRows-Goes events a b g =
      All-map (λ e. HasRow a.database e.event_id e.aggregate_id)
        (λ e. HasRow b.database e.event_id e.aggregate_id) (λ e. g.kept e.event_id e.aggregate_id)
        events

  dispatch-Goes :
      (events : List OutboxEvent) (so_far : ℕ) (w : World)
      → HasRows w events
      → Goes w (dispatch base around events so_far w).1
  unfolding dispatch marked
  dispatch-Goes [] so_far w rows = Goes-refl w
  dispatch-Goes (event ∷ events) so_far w rows =
      after_mark-Goes base w (dispatch base around events _) (marked event w)
        (marked-Goes event w rows.0)
        (λ w' g. dispatch-Goes events _ w' (HasRows-Goes events w w' g rows.1))

  Found-HasRow :
      (w : World) (e : OutboxEvent)
      → Found event_key w.database.outbox e
      → HasRow w.database e.event_id e.aggregate_id
  Found-HasRow w e found = (e, found, refl)

  ready-HasRows :
      (now limit : ℕ) (w : World)
      → Distinct event_key w.database.outbox
      → HasRows w (ready_events now limit w.database.outbox)
  unfolding ready_events
  ready-HasRows now limit w distinct =
      All-map (Found event_key w.database.outbox) (λ e. HasRow w.database e.event_id e.aggregate_id)
        (Found-HasRow w) (ready_events now limit w.database.outbox)
        (Found-select event_key older (is_ready now) limit w.database.outbox distinct)

  -- Whatever the queue and the database answer during a dispatch, no message and no row of the
  -- outbox goes away, every row stays with its evaluation, and if each published event has had a
  -- message of its evaluation in the stream before, then each has after it, provided that the ids
  -- of the events differ and that what others do in between is of this kind.
  pub dispatch_once-Goes :
      (link : Link) (now limit : ℕ) (w : World)
      → Distinct event_key w.database.outbox
      → Goes w (dispatch_once base link now limit around w).1
  unfolding dispatch_once after_ready ready_outbox persistent transaction commit
  dispatch_once-Goes up now limit w distinct =
      dispatch-Goes (ready_events now limit w.database.outbox) 0 w
        (ready-HasRows now limit w distinct)
  dispatch_once-Goes down now limit w distinct = Goes-refl w
  dispatch_once-Goes lost_reply now limit w distinct = Goes-refl w

  -- all servers answer
  module _ (queue_up : (event_id : ℕ) → (around event_id).queue_link ≡ up)
      (database_up : (event_id : ℕ) → (around event_id).database_link ≡ up) where
    marked-ok :
        (event : OutboxEvent) (w : World)
        → (changed : Bool) × (w' : World) × (marked event w ≡ (ok changed, w'))
          × IsIn w'.stream event.aggregate_id
    unfolding marked enqueue mark
    marked-ok event w =
        let s = around event.event_id in
        let sent = record w { stream = w.stream ++ (event.aggregate_id ∷ []) } in
        let after = s.others sent in
        let (changed, db, e) = mark_outbox_published-ok event.event_id s.marked_at after.database in
        let arrived = Any-append_right _ w.stream (event.aggregate_id ∷ []) (inl refl) in
        (
          changed,
          record after { database = db },
          rw (queue_up event.event_id, database_up event.event_id, e) refl,
          (fair event.event_id sent).grows event.aggregate_id arrived,
        )

    counted-up :
        (event : OutboxEvent) (so_far : ℕ) (w : World)
        → counted base (enqueue (around event.event_id).queue_link event.aggregate_id w).0 so_far
          ≡ so_far + 1
    unfolding enqueue
    counted-up event so_far w = rw (queue_up event.event_id) refl

    dispatch-marked :
        (event : OutboxEvent) (events : List OutboxEvent) (so_far : ℕ) (w w' : World)
        (changed : Bool)
        → marked event w ≡ (ok changed, w')
        → dispatch base around (event ∷ events) so_far w
          ≡ dispatch base around events (so_far + 1) w'
    unfolding dispatch marked after_mark
    dispatch-marked event events so_far w w' changed e =
        let counter =
          counted base (enqueue (around event.event_id).queue_link event.aggregate_id w).0 so_far in
        ap (after_mark base (dispatch base around events counter)) e
        ∙ ap (λ n. dispatch base around events n w') (counted-up event so_far w)

    dispatch-Sends :
        (events : List OutboxEvent) (so_far : ℕ) (w : World)
        → HasRows w events
        → Sends events so_far (dispatch base around events so_far w)
    unfolding dispatch
    dispatch-Sends [] so_far w rows = (ap ok (omega arith), tt)
    dispatch-Sends (event ∷ events) so_far w rows =
        let (changed, w', e, arrived) = marked-ok event w in
        let goes = subst (λ r. Goes w r.1) e (marked-Goes event w rows.0) in
        let later = HasRows-Goes events w w' goes rows.1 in
        let rest = dispatch-Sends events (so_far + 1) w' later in
        let tail = dispatch-Goes events (so_far + 1) w' later in
        subst (Sends (event ∷ events) so_far)
          (sym (dispatch-marked event events so_far w w' changed e))
          (Sends-cons event events so_far (dispatch base around events (so_far + 1) w') rest
            (tail.grows event.aggregate_id arrived))

    -- When the database and the queue answer every call of a dispatch, it returns the number of the
    -- events that were ready, up to the limit, and the evaluation of each of them has a message in
    -- the stream, provided that the ids of the events differ and that what others do in between
    -- takes no message and no row away and publishes no event before its message.
    pub dispatch_once-Sends :
        (now limit : ℕ) (w : World)
        → Distinct event_key w.database.outbox
        → Sends
            (ready_events now limit w.database.outbox)
            0
            (dispatch_once base up now limit around w)
    unfolding dispatch_once after_ready ready_outbox persistent transaction commit
    dispatch_once-Sends now limit w distinct =
        dispatch-Sends (ready_events now limit w.database.outbox) 0 w
          (ready-HasRows now limit w distinct)
