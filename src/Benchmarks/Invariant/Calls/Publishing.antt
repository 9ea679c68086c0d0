-- ===== src/Benchmarks/Invariant/Calls/Publishing.antt =====
-- The calls on the outbox keep every pending sample announced.
use codejudge_ai.Base.{
  ℕ, ◌≡◌, refl, ◌*◌, ◌^◌, ◌∙◌, Bool, true, false, some, All-map, Option-cases, inl, inr, is_some,
}
use codejudge_ai.Base.Table.{find, put, Any-put, find-key_self}
use codejudge_ai.Benchmarks.Invariant.Rules.{Keeps, persistent-Keeps, if-Keeps}
use codejudge_ai.Benchmarks.Invariant.{IsCovered, IsConsistent}
use codejudge_ai.Benchmarks.Model.{BenchmarkTables, sample_key}
use codejudge_ai.Benchmarks.Outbox.{assign, update_event, update_outbox}
use codejudge_ai.Jobs.Model.{OutboxEvent, event_key}
use codejudge_ai.Jobs.Repository.Outbox.{published, deferred}
use codejudge_ai.Jobs.Retry.{retry_delay_seconds-suc}
use codejudge_ai.Jobs.Transaction.{Link}

-- an UPDATE of an event that keeps its sample
update_event-IsConsistent :
    (db : BenchmarkTables) (event old : OutboxEvent)
    → IsConsistent db
    → find event_key event.event_id db.outbox ≡ some old
    → event.aggregate_id ≡ old.aggregate_id
    → IsConsistent (update_event event db)
update_event-IsConsistent db event old c found same = record {
  distinct = c.distinct;
  sound = c.sound;
  staged = c.staged;
  covered =
      All-map (IsCovered db.outbox) (IsCovered (put event_key event db.outbox))
        (λ sample h p.
          Any-put event_key (λ e. e.aggregate_id ≡ sample_key sample) event old db.outbox found
            (λ q. same ∙ q) (h p))
        db.samples c.covered;
}

assign-Keeps :
    (is_published : Bool) (event_id now retry_base : ℕ) (db : BenchmarkTables) (event : OutboxEvent)
    → IsConsistent db
    → find event_key event_id db.outbox ≡ some event
    → Keeps (assign is_published event now retry_base db)
unfolding assign
assign-Keeps true event_id now retry_base db event c e =
    update_event-IsConsistent db (published event now) event c
      (find-key_self event_key event_id db.outbox event e) refl
assign-Keeps false event_id now retry_base db event c e =
    rw (retry_delay_seconds-suc event.attempt_count retry_base) (
      update_event-IsConsistent db (deferred event now (retry_base * 3 ^ event.attempt_count)) event
        c (find-key_self event_key event_id db.outbox event e) refl)

pub update_outbox-IsConsistent :
    (link : Link) (event_id now : ℕ) (is_published : Bool) (retry_base : ℕ) (db : BenchmarkTables)
    → IsConsistent db
    → IsConsistent (update_outbox link event_id now is_published retry_base db).1
unfolding update_outbox
update_outbox-IsConsistent link event_id now is_published retry_base db c =
    persistent-Keeps link _ db c (elim (Option-cases (find event_key event_id db.outbox)) [
      | inl e ↦ rw e c
      | inr (event, e) ↦ rw e (
          if-Keeps (is_some event.published_at) _ _ (λ _. c)
            (λ _. assign-Keeps is_published event_id now retry_base db event c e))
    ])
