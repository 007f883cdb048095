-- ===== src/Activation/Service.antt =====
-- internal/activation/service.go: `EnqueueSend` and `EnqueueJourneySend`, with the consent gate. The
-- hash of the idempotency key and the ids of new rows are parameters.
pub mod Once
pub mod Denied
pub mod Examples
use osscdp.Prelude.{
  ℕ, suc, ◌+◌, String, ◌==◌, Bool, true, false, ◌&&◌, Option, none, some, List, [], ◌∷◌, ◌++◌, eqb,
  if◌then◌else◌, is_empty, Result, ok, err, ◌>>=◌,
}
use osscdp.Activation.Task.{TaskStatus, pending, skipped, KeyParts, Task, create_task}

pub data ServiceError : Type 0 where
  consent_error : String → ServiceError

-- The columns of a destination that the service reads. The last two are the fields of ConsentTarget
-- in its config, empty where the config has none.
pub record Destination : Type 0 where
  pub id : ℕ
  pub tenant_id : ℕ
  pub type_name : String
  pub consent_channel : String
  pub consent_purpose : String

-- A row of destination_subscription with trigger_type 'journey'.
pub record JourneySubscription : Type 0 where
  pub id : ℕ
  pub tenant_id : ℕ
  pub destination_id : ℕ

pub record Db : Type 0 where
  pub destinations : List Destination
  pub journey_subscriptions : List JourneySubscription
  pub tasks : List Task

-- ConsentTargetFor
abbrev pub consent_channel_of : Destination → String
consent_channel_of d = if is_empty d.consent_channel then d.type_name else d.consent_channel

abbrev pub consent_purpose_of : Destination → String
consent_purpose_of d = if is_empty d.consent_purpose then "marketing" else d.consent_purpose

-- GetDestination; none for an error.
unfoldable pub get_destination : ℕ → ℕ → List Destination → Option Destination
get_destination tenant id [] = none
get_destination tenant id (d ∷ ds) =
    let rest = get_destination tenant id ds in
    if eqb d.tenant_id tenant && eqb d.id id then some d else rest

find_subscription : ℕ → ℕ → List JourneySubscription → Option ℕ
find_subscription tenant dest [] = none
find_subscription tenant dest (s ∷ ss) =
    let rest = find_subscription tenant dest ss in
    if eqb s.tenant_id tenant && eqb s.destination_id dest then some s.id else rest

-- What the service is given: the hash of IdempotencyKey, and the consent status of a tenant, a
-- profile, a channel and a purpose (none: no gate).
pub record Env : Type 0 where
  pub digest : KeyParts → String
  pub consent : Option (ℕ → ℕ → String → String → Result ServiceError String)

-- A send: what EnqueueJourneySend is called with.
pub record Send : Type 0 where
  pub tenant_id : ℕ
  pub destination_id : ℕ
  pub profile_id : ℕ
  pub source_event_id : String
  pub change : String
  pub payload : String

abbrev pub parts_of : Send → ℕ → KeyParts
parts_of s subscription = record {
  tenant_id = s.tenant_id;
  destination_id = s.destination_id;
  subscription_id = subscription;
  profile_id = s.profile_id;
  source_event_id = s.source_event_id;
  change = s.change;
}

-- EnsureJourneySubscription: `id` is the id of a new row.
unfoldable pub ensure_subscription : ℕ → ℕ → ℕ → Db → Db × ℕ
unfolding find_subscription
ensure_subscription tenant dest id db =
    elim (find_subscription tenant dest db.journey_subscriptions) [
      | some found ↦ (db, found)
      | none ↦ (
        record db {
          journey_subscriptions =
              db.journey_subscriptions
              ++ (record { id = id; tenant_id = tenant; destination_id = dest }) ∷ [];
        },
        id,
      )
    ]

-- An error of EnqueueJourneySend, with the database that it leaves: a subscription that it has made
-- stays.
pub record SendFailure : Type 0 where
  pub error : ServiceError
  pub db : Db

unfoldable pub failing_at : Db → Result ServiceError (Db × Bool) → Result SendFailure (Db × Bool)
failing_at db (err x) = err (record { error = x; db = db })
failing_at db (ok out) = ok out

module _ (env : Env) where
  -- consentDeniedFor, and false where there is no gate.
  consent_denied : Send → List Destination → Result ServiceError Bool
  unfolding get_destination
  consent_denied s destinations = elim env.consent [
    | none ↦ ok false
    | some get ↦ elim (get_destination s.tenant_id s.destination_id destinations) [
      | none ↦ ok false
      | some d ↦ do
        status ← get s.tenant_id s.profile_id (consent_channel_of d) (consent_purpose_of d)
        ok (status == "denied")
    ]
  ]

  unfoldable pub task_of : Send → ℕ → ℕ → Bool → Task
  task_of s subscription id denied = record {
    id = id;
    tenant_id = s.tenant_id;
    destination_id = s.destination_id;
    subscription_id = subscription;
    customer_profile_id = s.profile_id;
    source_event_id = s.source_event_id;
    idempotency_key = env.digest (parts_of s subscription);
    payload = s.payload;
    status = if denied then skipped else pending;
    attempt_count = 0;
    next_attempt_at = none;
    last_error = if denied then "consent_denied" else "";
  }

  -- EnqueueSend: the subscription, and the id of a new task. `next_attempt_at` is now(), that is, due
  -- at once, as a NULL is.
  unfoldable pub enqueue_send : Send → ℕ → ℕ → Db → Result ServiceError (Db × Bool)
  unfolding consent_denied task_of
  enqueue_send s subscription id db = do
    denied ← consent_denied s db.destinations
    let (tasks, created) = create_task (task_of s subscription id denied) db.tasks
    ok (record db { tasks = tasks }, created)

  -- EnqueueJourneySend: the ids of a new subscription and of a new task.
  unfoldable pub enqueue_journey_send : Send → ℕ → ℕ → Db → Result SendFailure (Db × Bool)
  unfolding enqueue_send ensure_subscription failing_at
  enqueue_journey_send s subscription_id task_id db =
      let (db', subscription) =
        ensure_subscription s.tenant_id s.destination_id subscription_id db in
      failing_at db' (enqueue_send s subscription task_id db')
