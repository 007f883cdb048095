-- ===== src/Activation/Task/Bounded.antt =====
-- The bound on the attempts of a task, through the statements on the table.
use osscdp.Prelude.{
  ℕ, ◌+◌, ◌≤◌, ◌≡◌, String, Bool, true, false, ◌&&◌, Option, List, [], ◌∷◌, arith, All, All-snoc,
  if◌then◌else◌, eqb, Bool-cases, inl, inr,
}
use osscdp.Activation.Backoff.{max_retries}
use osscdp.Activation.Task.{
  Task, TaskStatus, pending, sending, succeeded, failed_retryable, failed_permanent, skipped,
  is_sendable, is_claimable, any_task, has_key, create_task, claim_tasks, mark_result,
}

abbrev pub is_done : TaskStatus → Bool
is_done succeeded = true
is_done failed_permanent = true
is_done _ = false

-- An attempt is left, unless the task is done.
abbrev pub AttemptsOk : TaskStatus → ℕ → Type 0
AttemptsOk status attempts = (if is_done status then attempts else attempts + 1) ≤ max_retries

abbrev pub Bounded : Task → Type 0
Bounded t = AttemptsOk t.status t.attempt_count

pub sendable-ok :
    (s : TaskStatus) (n : ℕ) → is_sendable s ≡ true → AttemptsOk s n → AttemptsOk sending n
sendable-ok pending n h b = b
sendable-ok failed_retryable n h b = b
sendable-ok sending n h b = b
sendable-ok succeeded n h b = absurd (ground arith)
sendable-ok failed_permanent n h b = absurd (ground arith)
sendable-ok skipped n h b = absurd (ground arith)

claim_one :
    (now : ℕ) (t : Task)
    → is_claimable now t ≡ true
    → Bounded t
    → Bounded (record t { status = sending })
claim_one now t h b = sendable-ok t.status t.attempt_count (ground arith) b

pub claim_tasks-Bounded :
    (now : ℕ) (chosen : Task → Bool) (ts : List Task)
    → All Bounded ts
    → All Bounded (claim_tasks now chosen ts)
unfolding claim_tasks
claim_tasks-Bounded now chosen [] a = tt
claim_tasks-Bounded now chosen (t ∷ ts) a = (
  elim (Bool-cases (is_claimable now t && chosen t)) [
    | inl y ↦ rw y (claim_one now t (ground arith) a.0)
    | inr y ↦ rw y a.0
  ],
  claim_tasks-Bounded now chosen ts a.1,
)

pub mark_result-Bounded :
    (id : ℕ) (status : TaskStatus) (attempts : ℕ) (next : Option ℕ) (message : String)
    (ts : List Task)
    → AttemptsOk status attempts
    → All Bounded ts
    → All Bounded (mark_result id status attempts next message ts)
unfolding mark_result
mark_result-Bounded id status attempts next message [] h a = tt
mark_result-Bounded id status attempts next message (t ∷ ts) h a = (
  elim (Bool-cases (eqb t.id id)) [ inl y ↦ rw y h | inr y ↦ rw y a.0 ],
  mark_result-Bounded id status attempts next message ts h a.1,
)

pub create_task-Bounded :
    (t : Task) (ts : List Task) → Bounded t → All Bounded ts → All Bounded (create_task t ts).0
unfolding create_task
create_task-Bounded t ts b a =
    elim (Bool-cases (any_task (has_key t.tenant_id t.idempotency_key) ts)) [
      | inl y ↦ rw y a
      | inr y ↦ rw y (All-snoc Bounded ts t a b)
    ]
