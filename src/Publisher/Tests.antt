-- ===== src/Publisher/Tests.antt =====
-- One event that is ready, and the theorems about its dispatch.
use codejudge_ai.Base.{ℕ, refl, none, [], ◌∷◌}
use codejudge_ai.Jobs.Model.{OutboxEvent}
use codejudge_ai.Jobs.Repository.Outbox.{ready_events}
use codejudge_ai.Jobs.Transaction.{up}
use codejudge_ai.Publisher.Delivery.{Goes, Goes-refl}
use codejudge_ai.Publisher.Dispatch.{Sends, dispatch_once-Goes, dispatch_once-Sends}
use codejudge_ai.Publisher.{World, Surroundings, dispatch_once}

abbrev event : OutboxEvent
event = record {
  event_id = 7;
  event_type = "evaluation.requested";
  aggregate_id = 1;
  created_at = 100;
  published_at = none;
  attempt_count = 0;
  next_attempt_at = 100;
  last_error_code = none;
}

abbrev world : World
world = record {
  stream = [];
  database = record { jobs = []; evaluations = []; outbox = event ∷ [] };
}

abbrev around : ℕ → Surroundings
around event_id = record { queue_link = up; database_link = up; marked_at = 120; others = λ w. w }

dispatch_once-Goes_example : Goes world (dispatch_once 2 up 110 100 around world).1
dispatch_once-Goes_example =
    dispatch_once-Goes 2 around (λ event_id w. Goes-refl w) up 110 100 world (tt, tt)

dispatch_once-Sends_example :
    Sends (ready_events 110 100 (event ∷ [])) 0 (dispatch_once 2 up 110 100 around world)
dispatch_once-Sends_example =
    dispatch_once-Sends 2 around (λ event_id w. Goes-refl w) (λ event_id. refl) (λ event_id. refl)
      110 100 world (tt, tt)
