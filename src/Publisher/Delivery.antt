-- ===== src/Publisher/Delivery.antt =====
-- An event is published only after its message is in the stream.
use mathlib.Core.Path.{subst}
use codejudge_ai.Base.{
  ℕ, ◌*◌, ◌^◌, ◌≡◌, refl, sym, ap, ◌∙◌, arith, true, false, some, List, [], ◌∷◌, ◌++◌, All, Any,
  is_some, All-map, Any-append_left, Any-append_right, Bool-cases, ◌==◌, ==_iff, inl, inr,
}
use codejudge_ai.Base.Errors.{Result, ok, raise}
use codejudge_ai.Base.Table.{find, put, find-put, All-put, find-key_self}
use codejudge_ai.Jobs.Model.{Database, OutboxEvent, event_key}
use codejudge_ai.Jobs.Repository.Outbox.{
  published, publish_event, published_body, mark_outbox_published, deferred, defer_event,
  failed_body, mark_outbox_failed,
}
use codejudge_ai.Jobs.Invariant.Outbox.{defer_event-eq}
use codejudge_ai.Jobs.Transaction.Rules.{Ensures, if-Ensures, found-Ensures, persistent-Ensures}
use codejudge_ai.Jobs.Transaction.{Link, up, down, lost_reply}
use codejudge_ai.Publisher.{World, Surroundings, enqueue, mark}

abbrev pub IsIn : List ℕ → ℕ → Type 0
IsIn stream id = Any (λ other. other ≡ id) stream

abbrev pub IsSent : List ℕ → OutboxEvent → Type 0
IsSent stream event = is_some event.published_at ≡ true → IsIn stream event.aggregate_id

-- the row of an event, which belongs to the same evaluation
abbrev pub HasRow : Database → (event_id aggregate_id : ℕ) → Type 0
HasRow db event_id aggregate_id =
    (event : OutboxEvent) × (find event_key event_id db.outbox ≡ some event)
    × (event.aggregate_id ≡ aggregate_id)

-- How publishers and others change the world: messages and rows stay, a row belongs to the
-- evaluation that it always belonged to, and published rows have had their message.
pub record Goes (a b : World) : Type 0 where
  pub delivered : All (IsSent a.stream) a.database.outbox → All (IsSent b.stream) b.database.outbox
  pub kept :
      (event_id aggregate_id : ℕ)
      → HasRow a.database event_id aggregate_id
      → HasRow b.database event_id aggregate_id
  pub grows : (id : ℕ) → IsIn a.stream id → IsIn b.stream id

pub Goes-refl : (w : World) → Goes w w
Goes-refl w = record { delivered = λ h. h; kept = λ e a h. h; grows = λ id h. h }

pub Goes-trans : {a b c : World} → Goes a b → Goes b c → Goes a c
Goes-trans p q = record {
  delivered = λ h. q.delivered (p.delivered h);
  kept = λ e a h. q.kept e a (p.kept e a h);
  grows = λ id h. q.grows id (p.grows id h);
}

append-Goes : (w : World) (id : ℕ) → Goes w (record w { stream = w.stream ++ (id ∷ []) })
append-Goes w id = record {
  delivered =
      All-map (IsSent w.stream) (IsSent (w.stream ++ (id ∷ [])))
        (λ event h p. Any-append_left _ w.stream (id ∷ []) (h p)) w.database.outbox;
  kept = λ e a h. h;
  grows = λ other h. Any-append_left _ w.stream (id ∷ []) h;
}

-- the message of an answer that raised nothing is in the stream
abbrev pub Arrived : List ℕ → ℕ → Result (Unit {0}) → Type 0
Arrived stream id (ok done) = IsIn stream id
Arrived stream id (raise e) = Unit {0}

pub enqueue-Goes :
    (link : Link) (id : ℕ) (w : World)
    → Goes w (enqueue link id w).1 × Arrived (enqueue link id w).1.stream id (enqueue link id w).0
unfolding enqueue
enqueue-Goes up id w = (append-Goes w id, Any-append_right _ w.stream (id ∷ []) (inl refl))
enqueue-Goes down id w = (Goes-refl w, tt)
enqueue-Goes lost_reply id w = (append-Goes w id, tt)

put-HasRow :
    (db : Database) (event row : OutboxEvent) (event_id aggregate_id : ℕ)
    → find event_key row.event_id db.outbox ≡ some event
    → row.aggregate_id ≡ event.aggregate_id
    → HasRow db event_id aggregate_id
    → HasRow (record db { outbox = put event_key row db.outbox }) event_id aggregate_id
put-HasRow db event row event_id aggregate_id found same (old, e, belongs) =
    let placed = find-put event_key event_id row db.outbox in
    elim (Bool-cases (row.event_id == event_id)) [
      | inl this ↦
          let key = (==_iff row.event_id event_id).0 this in
          let one : event ≡ old = ground (arith, found, key, e) in
          (row, ground (arith, placed, this, e), same ∙ ap (λ x. x.aggregate_id) one ∙ belongs)
      | inr other ↦ (old, ground (arith, placed, other, e), belongs)
    ]

-- an UPDATE of a row that keeps its evaluation
put-Goes :
    (w : World) (event row : OutboxEvent)
    → find event_key row.event_id w.database.outbox ≡ some event
    → row.aggregate_id ≡ event.aggregate_id
    → (All (IsSent w.stream) w.database.outbox → IsSent w.stream row)
    → Goes w
        (record w { database = record w.database { outbox = put event_key row w.database.outbox } })
put-Goes w event row found same sent = record {
  delivered = λ h. All-put event_key (IsSent w.stream) row w.database.outbox (sent h) h;
  kept =
      λ event_id aggregate_id h. put-HasRow w.database event row event_id aggregate_id found same h;
  grows = λ id h. h;
}

-- the tables that go on from those of a world, with the same stream
abbrev GoesTo : World → Database → Type 0
GoesTo w db = Goes w (record w { database = db })

publish_event-GoesTo :
    (w : World) (event_id now : ℕ) (event : OutboxEvent)
    → find event_key event_id w.database.outbox ≡ some event
    → IsIn w.stream event.aggregate_id
    → Ensures (GoesTo w) (publish_event event now w.database)
unfolding publish_event
publish_event-GoesTo w event_id now event e arrived =
    if-Ensures (GoesTo w) (is_some event.published_at) _ _ (λ _. Goes-refl w)
      (λ _.
        put-Goes w event (published event now)
          (find-key_self event_key event_id w.database.outbox event e) refl (λ _ _. arrived))

defer_event-GoesTo :
    (w : World) (event_id now base : ℕ) (event : OutboxEvent)
    → find event_key event_id w.database.outbox ≡ some event
    → Ensures (GoesTo w) (defer_event event now base w.database)
defer_event-GoesTo w event_id now base event e = rw (defer_event-eq event now base w.database) (
    if-Ensures (GoesTo w) (is_some event.published_at) _ _ (λ _. Goes-refl w)
      (λ waits.
        put-Goes w event (deferred event now (base * 3 ^ event.attempt_count))
          (find-key_self event_key event_id w.database.outbox event e) refl
          (λ _ sent. absurd (ground (arith, waits, sent)))))

-- a row that is found is of the evaluation of its event
same_evaluation :
    (db : Database) (event_id aggregate_id : ℕ) (event : OutboxEvent)
    → HasRow db event_id aggregate_id
    → find event_key event_id db.outbox ≡ some event
    → aggregate_id ≡ event.aggregate_id
same_evaluation db event_id aggregate_id event (row, e, belongs) found =
    let one : row ≡ event = ground (arith, e, found) in sym belongs ∙ ap (λ x. x.aggregate_id) one

pub mark-Goes :
    (base : ℕ) (s : Surroundings) (event : OutboxEvent) (answer : Result (Unit {0})) (w : World)
    → HasRow w.database event.event_id event.aggregate_id
    → Arrived w.stream event.aggregate_id answer
    → Goes w (mark base s event answer w).1
unfolding mark mark_outbox_published mark_outbox_failed
mark-Goes base s event (ok done) w row arrived =
    persistent-Ensures (GoesTo w) s.database_link (published_body event.event_id s.marked_at)
      w.database (Goes-refl w)
      (found-Ensures (GoesTo w) (find event_key event.event_id w.database.outbox) false w.database
        (λ found. publish_event found s.marked_at w.database) (Goes-refl w)
        (λ found e. publish_event-GoesTo w event.event_id s.marked_at found e (
          subst (IsIn w.stream)
            (same_evaluation w.database event.event_id event.aggregate_id found row e) arrived)))
mark-Goes base s event (raise error) w row arrived =
    persistent-Ensures (GoesTo w) s.database_link (failed_body event.event_id s.marked_at base)
      w.database (Goes-refl w)
      (found-Ensures (GoesTo w) (find event_key event.event_id w.database.outbox) false w.database
        (λ found. defer_event found s.marked_at base w.database) (Goes-refl w)
        (λ found e. defer_event-GoesTo w event.event_id s.marked_at base found e))
