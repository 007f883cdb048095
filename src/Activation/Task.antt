-- ===== src/Activation/Task.antt =====
-- internal/activation/repo.go and idempotency.go: the table activation_task.
pub mod Create
pub mod Bounded
use osscdp.Prelude.{
  ℕ, String, ◌==◌, Bool, true, false, not, ◌&&◌, ◌||◌, Option, none, some, List, [], ◌∷◌, ◌++◌, leb,
  eqb, if◌then◌else◌,
}

-- The task statuses.
pub data TaskStatus : Type 0 where
  pending sending succeeded failed_retryable failed_permanent skipped : TaskStatus

-- What IdempotencyKey hashes.
pub record KeyParts : Type 0 where
  pub tenant_id : ℕ
  pub destination_id : ℕ
  pub subscription_id : ℕ
  pub profile_id : ℕ
  pub source_event_id : String
  pub change : String

-- A row of activation_task.
pub record Task : Type 0 where
  pub id : ℕ
  pub tenant_id : ℕ
  pub destination_id : ℕ
  pub subscription_id : ℕ
  pub customer_profile_id : ℕ
  pub source_event_id : String
  pub idempotency_key : String
  pub payload : String
  pub status : TaskStatus
  pub attempt_count : ℕ
  pub next_attempt_at : Option ℕ
  pub last_error : String

-- The columns of the unique constraint.
abbrev pub has_key : ℕ → String → Task → Bool
has_key tenant key t = eqb t.tenant_id tenant && t.idempotency_key == key

pub any_task : (Task → Bool) → List Task → Bool
any_task p [] = false
any_task p (t ∷ ts) = p t || any_task p ts

-- CreateTask: the row to insert, and whether it was.
unfoldable pub create_task : Task → List Task → List Task × Bool
unfolding any_task
create_task t tasks =
    if any_task (has_key t.tenant_id t.idempotency_key) tasks
    then (tasks, false)
    else (tasks ++ t ∷ [], true)

abbrev pub is_sendable : TaskStatus → Bool
is_sendable pending = true
is_sendable failed_retryable = true
is_sendable _ = false

abbrev is_due : ℕ → Option ℕ → Bool
is_due now none = true
is_due now (some t) = leb t now

abbrev pub is_claimable : ℕ → Task → Bool
is_claimable now t = is_sendable t.status && is_due now t.next_attempt_at

-- The update of ClaimDueTasks; `chosen` is what the order, the limit and SKIP LOCKED leave.
unfoldable pub claim_tasks : ℕ → (Task → Bool) → List Task → List Task
claim_tasks now chosen [] = []
claim_tasks now chosen (t ∷ ts) =
    let rest = claim_tasks now chosen ts in
    (if is_claimable now t && chosen t then record t { status = sending } else t) ∷ rest

abbrev pub marked : TaskStatus → ℕ → Option ℕ → String → Task → Task
marked status attempts next message t = record t {
  status = status;
  attempt_count = attempts;
  next_attempt_at = next;
  last_error = message;
}

-- MarkResult: the task's id, then what is written.
unfoldable pub mark_result : ℕ → TaskStatus → ℕ → Option ℕ → String → List Task → List Task
mark_result id status attempts next message [] = []
mark_result id status attempts next message (t ∷ ts) =
    let rest = mark_result id status attempts next message ts in
    (if eqb t.id id then marked status attempts next message t else t) ∷ rest
