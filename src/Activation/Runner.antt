-- ===== src/Activation/Runner.antt =====
-- internal/activation/runner.go: the attempt of one claimed task. The senders are a parameter; so is
-- the jitter that a retry draws. The insert of a delivery is taken to succeed.
pub mod Count
pub mod Attempts
pub mod Examples
use Prim.Native.String as Text
use osscdp.Prelude.{
  ℕ, ◌+◌, String, Bool, true, false, not, ◌&&◌, Option, none, some, List, [], ◌∷◌, ◌++◌,
  if◌then◌else◌, ltb,
}
use osscdp.Activation.Backoff.{backoff, max_retries}
use osscdp.Activation.Breaker.{Config, Breaker, allow, record_outcome}
use osscdp.Activation.Service.{Destination, get_destination}
use osscdp.Activation.Task.{
  Task, TaskStatus, succeeded, failed_retryable, failed_permanent, mark_result,
}

-- Outcome: what a sender says of its attempt.
pub record Outcome : Type 0 where
  pub success : Bool
  pub retryable : Bool
  pub http_status : ℕ
  pub response_body_hash : String
  pub error_message : String

abbrev pub join : String → String → String
join s t = Text.◌++◌ s t

abbrev pub failed_outcome : String → Outcome
failed_outcome message = record {
  success = false;
  retryable = false;
  http_status = 0;
  response_body_hash = "";
  error_message = message;
}

-- Delivery. Its status is DeliverySuccess or DeliveryFailed.
pub record Delivery : Type 0 where
  pub tenant_id : ℕ
  pub task_id : ℕ
  pub destination_id : ℕ
  pub customer_profile_id : ℕ
  pub source_event_id : String
  pub idempotency_key : String
  pub is_success : Bool
  pub http_status : ℕ
  pub response_body_hash : String
  pub error_message : String
  pub attempt_count : ℕ
  pub sent_at : ℕ

-- The readings of the clock in one attempt, in their order.
pub record Clock : Type 0 where
  pub at_allow : ℕ
  pub at_record : ℕ
  pub at_finish : ℕ

-- The runner: its breaker, if it has one, and its senders by the type of the destination.
pub record Runner : Type 0 where
  pub breaker_config : Option Config
  -- The text of an error of GetDestination.
  pub destination_error : String
  pub senders : String → Option (Destination → Task → Outcome)

-- The tables, and the breaker of the process that runs.
pub record World : Type 0 where
  pub destinations : List Destination
  pub tasks : List Task
  pub deliveries : List Delivery
  pub breaker : Breaker

abbrev pub delivery_of : ℕ → Task → ℕ → Outcome → Delivery
delivery_of now t attempt out = record {
  tenant_id = t.tenant_id;
  task_id = t.id;
  destination_id = t.destination_id;
  customer_profile_id = t.customer_profile_id;
  source_event_id = t.source_event_id;
  idempotency_key = t.idempotency_key;
  is_success = out.success;
  http_status = out.http_status;
  response_body_hash = out.response_body_hash;
  error_message = out.error_message;
  attempt_count = attempt;
  sent_at = now;
}

-- The `switch` of finish: what it writes to the task.
pub settle : ℕ → ℕ → ℕ → ℕ → Outcome → List Task → List Task
settle now jitter id attempt out tasks =
    if out.success
    then mark_result id succeeded attempt none "" tasks
    else if out.retryable && ltb attempt max_retries
    then mark_result id failed_retryable attempt (some (now + (backoff attempt + jitter)))
        out.error_message tasks
    else mark_result id failed_permanent attempt none out.error_message tasks

-- finish: the instant, the jitter.
pub finish : ℕ → ℕ → Task → ℕ → Outcome → World → World
unfolding settle
finish now jitter t attempt out w = record w {
  deliveries = w.deliveries ++ delivery_of now t attempt out ∷ [];
  tasks = settle now jitter t.id attempt out w.tasks;
}

-- `r.breaker != nil && !r.breaker.Allow(...)`, negated, with the breaker after it.
pub may_send : Option Config → ℕ → ℕ → World → World × Bool
may_send none now id w = (w, true)
may_send (some c) now id w =
    let (b, yes_go) = allow c now id w.breaker in (record w { breaker = b }, yes_go)

abbrev pub record_send : Option Config → ℕ → ℕ → Bool → World → World
record_send none now id success w = w
record_send (some c) now id success w = record w {
  breaker = record_outcome c now id success w.breaker;
}

cooldown_of : Option Config → ℕ
cooldown_of none = 0
cooldown_of (some c) = c.cooldown

-- The part of process behind the sender's lookup, none where the runner has no such sender.
pub deliver :
    Runner → Clock → ℕ → Task → World → Destination → Option (Destination → Task → Outcome) → World
unfolding finish
deliver r clock jitter t w d none =
    finish clock.at_finish jitter t (t.attempt_count + 1)
      (failed_outcome (join "unknown destination type: " d.type_name)) w
deliver r clock jitter t w d (some send) =
    finish clock.at_finish jitter t (t.attempt_count + 1) (send d t)
      (record_send r.breaker_config clock.at_record t.destination_id (send d t).success w)

-- The part of process behind GetDestination, none for its error.
pub attempt_send : Runner → Clock → ℕ → Task → World → Option Destination → World
unfolding finish deliver
attempt_send r clock jitter t w none =
    finish clock.at_finish jitter t (t.attempt_count + 1)
      (failed_outcome (join "destination unavailable: " r.destination_error)) w
attempt_send r clock jitter t w (some d) = deliver r clock jitter t w d (r.senders d.type_name)

-- process
pub process : Runner → Clock → ℕ → Task → World → World
unfolding may_send cooldown_of attempt_send
process r clock jitter t w =
    let (w', yes_go) = may_send r.breaker_config clock.at_allow t.destination_id w in
    if yes_go
    then attempt_send r clock jitter t w'
        (get_destination t.tenant_id t.destination_id w'.destinations)
    else record w' {
      tasks =
          mark_result t.id failed_retryable t.attempt_count
            (some (clock.at_allow + cooldown_of r.breaker_config)) "circuit_open" w'.tasks;
    }
