-- ===== src/Journey/Service/Run.antt =====
-- What one step does to the row of a claimed run.
use osscdp.Prelude.{ℕ, ℤ, ◌<◌, ◌≡◌, true, none, some, List, length, ok, pos}
use osscdp.Journey.Definition.{Step}
use osscdp.Journey.Validate.{is_forward}
use osscdp.Journey.Validate.Forward.{StepsOk}
use osscdp.Journey.Enrollment.{Row, Enrollment, holds_claim, advance_row, advance, exited}
use osscdp.Journey.Enrollment.Find.{find_run, find_run-advance}
use osscdp.Journey.Service.{World, Env, status_for, advance_enrollment}
use osscdp.Journey.Service.Forward.{Moved, went, left, advance_enrollment-Moved}

-- What a step at the index `i` of `n` makes of the table, and of the row `r` of the run.
pub data MovedRun (env : Env) (n i : ℕ) (e : Enrollment) (now : ℕ) (r : Row)
    (before after : List Row) : Type 0 where
  -- The run stands at a later step, or has completed behind the last.
  forth :
      (target : ℤ) (due_at : ℕ)
      → is_forward i n target ≡ true
      → after ≡ (advance e now target due_at (status_for n target) before).0
      → find_run e after ≡ some (advance_row target due_at (status_for n target) r)
      → MovedRun env n i e now r before after
  -- The profile is gone, and the run has exited where it stood.
  out :
      env.get_profile e.tenant_id e.customer_profile_id ≡ ok none
      → after ≡ (advance e now e.current_step_index now exited before).0
      → find_run e after ≡ some (advance_row e.current_step_index now exited r)
      → MovedRun env n i e now r before after

Moved-MovedRun :
    (env : Env) (n i : ℕ) (e : Enrollment) (now : ℕ) (r : Row) {before after : List Row}
    → find_run e before ≡ some r
    → holds_claim e now r ≡ true
    → Moved env n i e now before after
    → MovedRun env n i e now r before after
Moved-MovedRun env n i e now r {before} h c (went target due_at f q) =
    forth target due_at f q
      (rw q (find_run-advance e now target due_at (status_for n target) before h c))
Moved-MovedRun env n i e now r {before} h c (left g q) =
    out g q (rw q (find_run-advance e now e.current_step_index now exited before h c))

-- One call of Advance on a run that stands at a step of a valid version and whose row holds the claim,
-- if it returns no error: the row of the run then stands at a later step, or has completed behind the
-- last, or else GetByID has not found the profile and the row has exited where it stood. In each case
-- that one write of repo.Advance is all that the table of enrollments has seen.
pub advance_enrollment-MovedRun :
    (env : Env) (sub id : ℕ) (e : Enrollment) (now i : ℕ) (steps : List Step) (w : World) (r : Row)
    {w' : World}
    → env.get_version e.tenant_id e.journey_id e.journey_version ≡ ok steps
    → StepsOk env.runtime (length steps) 0 steps
    → e.current_step_index ≡ pos i
    → i < length steps
    → find_run e w.rows ≡ some r
    → holds_claim e now r ≡ true
    → advance_enrollment env sub id e now w ≡ ok w'
    → MovedRun env (length steps) i e now r w.rows w'.rows
advance_enrollment-MovedRun env sub id e now i steps w r v a p h f c k =
    Moved-MovedRun env (length steps) i e now r f c
      (advance_enrollment-Moved env sub id e now i steps w v a p h k)
