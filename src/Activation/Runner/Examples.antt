-- ===== src/Activation/Runner/Examples.antt =====
-- A concrete history: a send is enqueued, claimed and attempted.
use osscdp.Prelude.{true, false, none, some, [], ◌∷◌}
use osscdp.Activation.Breaker.{zero_state}
use osscdp.Activation.Service.{Env, Send, task_of}
use osscdp.Activation.Task.{Task, sending, create_task, claim_tasks}
use osscdp.Activation.Runner.{Runner, Clock, World}

abbrev env : Env
env = record { digest = λ k. k.source_event_id; consent = none }

abbrev send : Send
send = record {
  tenant_id = 1;
  destination_id = 9;
  profile_id = 7;
  source_event_id = "journey:2:1:0";
  change = "step:2";
  payload = "{}";
}

-- Every send times out.
abbrev runner : Runner
runner = record {
  breaker_config = some (record { threshold = 3; window = 60; cooldown = 30 });
  destination_error = "no rows";
  senders = λ type_name. some (λ d t. record {
    success = false;
    retryable = true;
    http_status = 0;
    response_body_hash = "";
    error_message = "timeout";
  });
}

abbrev clock : Clock
clock = record { at_allow = 100; at_record = 110; at_finish = 111 }

abbrev world : World
world = record {
  destinations =
      record {
        id = 9;
        tenant_id = 1;
        type_name = "webhook";
        consent_channel = "";
        consent_purpose = "";
      }
      ∷ [];
  tasks = [];
  deliveries = [];
  breaker = λ id. zero_state;
}

abbrev task : Task
unfolding task_of
task = record (task_of env send 50 60 false) { status = sending }

abbrev enqueued_world : World
enqueued_world = record world { tasks = (create_task (task_of env send 50 60 false) []).0 }

abbrev claimed_world : World
claimed_world = record enqueued_world { tasks = claim_tasks 99 (λ t. true) enqueued_world.tasks }
