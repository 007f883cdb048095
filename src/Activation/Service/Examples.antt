-- ===== src/Activation/Service/Examples.antt =====
-- A concrete send, enqueued twice.
use osscdp.Prelude.{ℕ, String, Option, ◌≡◌, refl, true, false, none, some, [], ◌∷◌, Result, ok}
use osscdp.Activation.Task.{pending, create_task}
use osscdp.Activation.Service.{
  ServiceError, Db, Env, Send, ensure_subscription, consent_denied, get_destination, task_of,
  enqueue_send, enqueue_journey_send, failing_at,
}
use osscdp.Activation.Service.Once.{enqueue_journey_send-again}

abbrev env : Env
env = record { digest = λ k. k.source_event_id; consent = none }

abbrev denies : Option (ℕ → ℕ → String → String → Result ServiceError String)
denies = some (λ t p channel purpose. ok "denied")

abbrev send : Send
send = record {
  tenant_id = 1;
  destination_id = 9;
  profile_id = 7;
  source_event_id = "journey:2:1:0";
  change = "step:2";
  payload = "{}";
}

abbrev start_db : Db
start_db = record {
  destinations =
      record {
        id = 9;
        tenant_id = 1;
        type_name = "webhook";
        consent_channel = "";
        consent_purpose = "";
      }
      ∷ [];
  journey_subscriptions = [];
  tasks = [];
}

abbrev sent_db : Db
sent_db = record start_db {
  journey_subscriptions = record { id = 50; tenant_id = 1; destination_id = 9 } ∷ [];
  tasks =
      record {
        id = 60;
        tenant_id = 1;
        destination_id = 9;
        subscription_id = 50;
        customer_profile_id = 7;
        source_event_id = "journey:2:1:0";
        idempotency_key = "journey:2:1:0";
        payload = "{}";
        status = pending;
        attempt_count = 0;
        next_attempt_at = none;
        last_error = "";
      }
      ∷ [];
}

-- The second one under a consent that is denied by then.
enqueue_journey_send-again_example : (sent_db ≡ sent_db) × (false ≡ false)
unfolding failing_at enqueue_journey_send ensure_subscription enqueue_send consent_denied
    get_destination task_of create_task
enqueue_journey_send-again_example =
    enqueue_journey_send-again env denies send "[]" 50 51 60 61 start_db {out = (sent_db, true)}
      {out' = (sent_db, false)} refl refl
