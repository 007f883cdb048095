-- ===== src/Journey/Service/Examples.antt =====
-- One step of a concrete enrollment.
use osscdp.Prelude.{◌+◌, ◌≡◌, refl, none, some, [], ◌∷◌, ok, pos, arith}
use osscdp.Activation.Service.{
  failing_at, enqueue_send, enqueue_journey_send, task_of, ensure_subscription, Db,
}
use osscdp.Activation.Task.{pending, create_task}
use osscdp.Journey.Enrollment.{enroll, claim}
use osscdp.Journey.Validate.Forward.{StepsOk, wait_ok, send_ok, split_ok}
use osscdp.Journey.Service.{
  World, Env, run_wait, enqueue_step, run_step, run_current, advance_enrollment, commit, status_for,
  send_of, enqueue_payload,
}
use osscdp.Segment.Window.{parse_window}
use osscdp.Journey.Service.Run.{MovedRun, advance_enrollment-MovedRun}
use osscdp.Journey.Enrollment.{active}
use osscdp.Journey.Enrollment.Find.{find_run}
use osscdp.Journey.Service.Resend.{enqueue_step-again}
use osscdp.Samples.{sample_runtime, sample_store, sample_profile}
use osscdp.Journey.Samples.{sample_key, sample_enrollment, sample_steps, sample_send}
use osscdp.Prelude.{true, List}
use osscdp.Journey.Enrollment.{Row}

abbrev env : Env
env = record {
  runtime = sample_runtime;
  get_version = λ t j v. ok sample_steps;
  get_profile = λ t p. ok (some sample_profile);
  store = some sample_store;
  sender = record { digest = λ k. "digest"; consent = none };
  payload = λ e p. ok "{}";
  source_key = λ j v seq. "journey:2:1:0";
  change_key = λ i. "step:2";
  split_hash = λ e. 1275;
}

abbrev no_rows : Db
no_rows = record { destinations = []; journey_subscriptions = []; tasks = [] }

abbrev claimed_rows : List Row
claimed_rows = claim 200 60 (λ r. true) (enroll sample_key 1 1 100 []).0

abbrev before : World
before = record { rows = claimed_rows; db = no_rows }

abbrev waited : World
waited =
    commit sample_enrollment 200 (pos 1) (200 + 86_400_000_000_000) (status_for 3 (pos 1)) before

steps_StepsOk : StepsOk sample_runtime 3 0 sample_steps
unfolding parse_window
steps_StepsOk = (
  wait_ok refl refl refl,
  (
    split_ok refl ((refl, refl, refl), ((refl, refl, refl), tt)) (omega arith),
    (send_ok refl refl, tt),
  ),
)

abbrev claimed_row : Row
claimed_row = record {
  tenant_id = sample_key.tenant_id;
  journey_id = sample_key.journey_id;
  customer_profile_id = sample_key.customer_profile_id;
  enrollment_seq = 0;
  journey_version = 1;
  status = active;
  current_step_index = pos 0;
  step_seq = 0;
  due_at = 100;
  claimed_at = some 200;
  attempts = 0;
  parked_at = none;
  last_error = none;
}

advance_enrollment-MovedRun_example :
    MovedRun env 3 0 sample_enrollment 200 claimed_row before.rows waited.rows
unfolding advance_enrollment run_current run_step run_wait parse_window find_run claim enroll
advance_enrollment-MovedRun_example =
    advance_enrollment-MovedRun env 50 60 sample_enrollment 200 0 sample_steps before claimed_row
      {w' = waited} refl steps_StepsOk refl (omega arith) refl refl refl

abbrev sent_db : Db
sent_db = record {
  destinations = [];
  journey_subscriptions = record { id = 50; tenant_id = 1; destination_id = 9 } ∷ [];
  tasks =
      record {
        id = 60;
        tenant_id = 1;
        destination_id = 9;
        subscription_id = 50;
        customer_profile_id = 7;
        source_event_id = "journey:2:1:0";
        idempotency_key = "digest";
        payload = "{}";
        status = pending;
        attempt_count = 0;
        next_attempt_at = none;
        last_error = "";
      }
      ∷ [];
}

abbrev sent : World
sent = record { rows = claimed_rows; db = sent_db }

enqueue_step-again_example : sent.db ≡ sent_db
unfolding enqueue_step enqueue_payload send_of enqueue_journey_send failing_at ensure_subscription
    enqueue_send task_of create_task
enqueue_step-again_example =
    enqueue_step-again env 3 sample_enrollment 200 500 50 51 60 61 sample_send sample_profile
      sample_profile none (λ e p. ok "[]") before sent {v = sent} {v' = sent} refl refl refl
