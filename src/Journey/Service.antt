-- ===== src/Journey/Service.antt =====
-- internal/journey/service.go: the execution of one step of a claimed enrollment. What the service
-- reads through interfaces (versions, profiles, stored events) and the formats of keys are fields of
-- `Env`; the enrollment table and the database of internal/activation are the state.
pub mod Forward
pub mod Run
pub mod Resend
pub mod Examples
use osscdp.Prelude.{
  ℕ, ◌+◌, String, ◌==◌, Bool, true, false, Option, none, some, List, length, get_elem?,
  if◌then◌else◌, Result, ok, err, ◌>>=◌, ℤ, pos, negsuc, succ, is_zero, at_least,
}
use osscdp.Runtime.{Runtime}
use osscdp.Segment.Window.{WindowError, parse_window}
use osscdp.Segment.Store.{EvalError, BehaviorStore}
use osscdp.Segment.Leaf.{Profile, EvalContext, Event}
use osscdp.Segment.Rule.{Rule}
use osscdp.Segment.Evaluate.{evaluate}
use osscdp.Activation.Service.{SendFailure, Db, Send, enqueue_journey_send}
use osscdp.Activation.Service as Activation
use osscdp.Journey.Definition.{Branch, Step, step_wait, step_send, step_condition, step_split}
use osscdp.Journey.Split.{split_target}
use osscdp.Journey.Enrollment.{Status, active, completed, exited, Row, Enrollment, advance}

pub data JourneyError : Type 0 where
  version_error profile_error payload_error : String → JourneyError
  bad_window : WindowError → JourneyError
  -- with the database that the send leaves
  send_failed : SendFailure → JourneyError
  evaluation_failed : EvalError → JourneyError
  no_rule unknown_type panicked : JourneyError

pub record World : Type 0 where
  pub rows : List Row
  pub db : Db

pub record Env : Type 0 where
  pub runtime : Runtime
  -- GetVersion: the tenant, the journey, the version
  pub get_version : ℕ → ℕ → ℕ → Result JourneyError (List Step)
  -- GetByID of the tenant and the profile; none is profile.ErrNotFound
  pub get_profile : ℕ → ℕ → Result JourneyError (Option Profile)
  pub store : Option BehaviorStore
  pub sender : Activation.Env
  -- BuildPayload, which may fail to marshal
  pub payload : Enrollment → Profile → Result JourneyError String
  -- fmt.Sprintf("journey:%s:%d:%d", ...) and fmt.Sprintf("step:%d", ...)
  pub source_key : ℕ → ℕ → ℕ → String
  pub change_key : ℤ → String
  -- the hash of the split key of an enrollment
  pub split_hash : Enrollment → ℕ

-- `segment.EvalContext{Profile: *prof}`
abbrev pub no_event : Event
no_event = record { event_name = ""; type_name = ""; properties = ""; context = "" }

abbrev pub status_for : ℕ → ℤ → Status
status_for n target = if at_least target n then completed else active

-- linearNext
abbrev pub linear_next : Enrollment → Step → ℤ
linear_next e s = if is_zero s.next then succ e.current_step_index else s.next

-- `def.Steps[e.CurrentStepIndex]`: a negative index panics.
abbrev pub get_step : List Step → ℤ → Option Step
get_step steps (pos i) = get_elem? steps i
get_step steps (negsuc i) = none

-- `s.repo.Advance(ctx, e, now, ...)`, its result dropped.
abbrev pub commit : Enrollment → ℕ → ℤ → ℕ → Status → World → World
commit e now target due_at status w = record w {
  rows = (advance e now target due_at status w.rows).0;
}

module _ (env : Env) (n : ℕ) (e : Enrollment) (now : ℕ) where
  -- `statusFor(target)` with the call of repo.Advance.
  abbrev pub move_to : ℤ → ℕ → World → World
  move_to target due_at w = commit e now target due_at (status_for n target) w

  for_profile :
      (Profile → World → Result JourneyError World)
      → World
      → Option Profile
      → Result JourneyError World
  for_profile k w none = ok (commit e now e.current_step_index now exited w)
  for_profile k w (some p) = k p w

  -- loadProfileOrExit, with what the caller does for a profile.
  pub with_profile :
      (Profile → World → Result JourneyError World) → World → Result JourneyError World
  unfolding for_profile
  with_profile k w = do
    found ← env.get_profile e.tenant_id e.customer_profile_id
    for_profile k w found

  pub run_wait : Step → World → Result JourneyError World
  run_wait s w = elim (parse_window env.runtime s.duration) [
    | err x ↦ err (bad_window x)
    | ok dur ↦ ok (move_to (linear_next e s) (now + dur) w)
  ]

  pub send_of : Step → String → Send
  send_of s payload = record {
    tenant_id = e.tenant_id;
    destination_id = s.destination_id;
    profile_id = e.customer_profile_id;
    source_event_id = env.source_key e.journey_id e.journey_version e.enrollment_seq;
    change = env.change_key e.current_step_index;
    payload = payload;
  }

  -- The call of EnqueueJourneySend; two ids for new rows.
  pub enqueue_payload : ℕ → ℕ → Step → String → World → Result JourneyError World
  unfolding send_of
  enqueue_payload sub id s payload w =
      elim (enqueue_journey_send env.sender (send_of s payload) sub id w.db) [
        | err x ↦ err (send_failed x)
        | ok (db, created) ↦ ok (record w { db = db })
      ]

  -- The payload and the enqueue of a send step, before the advance.
  pub enqueue_step : ℕ → ℕ → Step → Profile → World → Result JourneyError World
  unfolding enqueue_payload
  enqueue_step sub id s p w = do payload ← env.payload e p; enqueue_payload sub id s payload w

  -- The send case, under the profile.
  pub send_to : ℕ → ℕ → Step → Profile → World → Result JourneyError World
  unfolding enqueue_step
  send_to sub id s p w = do w' ← enqueue_step sub id s p w; ok (move_to (linear_next e s) now w')

  pub run_send : ℕ → ℕ → Step → World → Result JourneyError World
  unfolding with_profile send_to
  run_send sub id s w = with_profile (send_to sub id s) w

  pub evaluate_rule : Rule → Profile → Result JourneyError Bool
  evaluate_rule r p =
      elim (evaluate env.runtime e.due_at env.store (record { profile = p; event = no_event }) r) [
        | err x ↦ err (evaluation_failed x)
        | ok m ↦ ok m
      ]

  -- The condition case, under the profile.
  pub branch_on : Step → Rule → Profile → World → Result JourneyError World
  unfolding evaluate_rule
  branch_on s r p w = do
    matched ← evaluate_rule r p
    ok (move_to (if matched then s.if_true else s.if_false) now w)

  pub run_rule : Step → Option Rule → World → Result JourneyError World
  unfolding with_profile branch_on
  run_rule s none w = err no_rule
  run_rule s (some r) w = with_profile (branch_on s r) w

  -- An empty split panics.
  pub run_split : Step → World → Result JourneyError World
  run_split s w = elim (split_target s.branches (env.split_hash e)) [
    | none ↦ err panicked
    | some target ↦ ok (move_to target now w)
  ]

  -- The `switch step.Type`.
  pub run_step : ℕ → ℕ → Step → World → Result JourneyError World
  run_step sub id s w =
      if s.type_name == step_wait
      then run_wait s w
      else if s.type_name == step_send
      then run_send sub id s w
      else if s.type_name == step_condition
      then run_rule s s.condition w
      else if s.type_name == step_split
      then run_split s w
      else err unknown_type

  -- The step at the current index.
  pub run_current : ℕ → ℕ → List Step → World → Result JourneyError World
  unfolding run_step
  run_current sub id steps w = elim (get_step steps e.current_step_index) [
    | none ↦ err panicked
    | some s ↦ run_step sub id s w
  ]

-- Advance
pub advance_enrollment : Env → ℕ → ℕ → Enrollment → ℕ → World → Result JourneyError World
unfolding run_current
advance_enrollment env sub id e now w = do
  steps ← env.get_version e.tenant_id e.journey_id e.journey_version
  if at_least e.current_step_index (length steps)
      then ok (commit e now e.current_step_index now completed w)
      else run_current env (length steps) e now sub id steps w
