-- ===== src/Segment/Service/Sweep.antt =====
-- What a sweep leaves behind.
use osscdp.Prelude.{ℕ, ◌≡◌, refl, Bool, true, false, Option, none, some, ok, arith}
use osscdp.Segment.Store.{reader}
use osscdp.Segment.Leaf.{Profile, EvalContext}
use osscdp.Segment.Evaluate.{evaluate}
use osscdp.Segment.DueAt.{next_due_at, references_event}
use osscdp.Segment.Membership.{Key, is_key}
use osscdp.Segment.Membership.Mirror.{is_member}
use osscdp.Segment.Membership.Settle.{flip_and_emit_settles}
use osscdp.Segment.Pending.{Pending, PendingTable, set_pending, upsert_pending, delete_pending}
use osscdp.Segment.Service.{
  ActiveVersion, Env, World, wrap, plan_of, arm_deadline, commit_flip, swept_key, sweep_profile,
  sweep_version, sweep_evaluate,
}

abbrev pub swept_context : Profile → EvalContext
swept_context prof = record {
  profile = prof;
  event = record { event_name = ""; type_name = ""; properties = ""; context = "" };
}

-- A row that waits for its deadline, with no claim and no failure on record.
abbrev pub fresh : ℕ → Pending
fresh due = record {
  due_at = due;
  reason = "absence_deadline";
  claimed_at = none;
  attempts = 0;
  parked_at = none;
  last_error = none;
}

abbrev pub fresh_row : Option ℕ → Option Pending
fresh_row none = none
fresh_row (some due) = some (fresh due)

set_pending_self : (k : Key) (row : Option Pending) (t : PendingTable) → set_pending k row t k ≡ row
set_pending_self k row t = let e : is_key k k ≡ true = ground arith in rw e

arm_deadline-fresh :
    (k : Key) (due : Option ℕ) (t : PendingTable) → arm_deadline k (plan_of due) t k ≡ fresh_row due
unfolding arm_deadline upsert_pending delete_pending
arm_deadline-fresh k none t = set_pending_self k none t
arm_deadline-fresh k (some due) t = set_pending_self k (some (fresh due)) t

module _ (env : Env) (now : ℕ) (k : Key) (at : ℕ) (w : World) (seg : ActiveVersion)
    (prof : Profile) where
  -- A sweep of a segment whose rule reads no event, for a profile that is there: if the rule and its
  -- deadline are evaluated without an error, the sweep succeeds; then the profile is a member just
  -- when the rule matches, and its row of deadlines is the one of the next deadline, free of claim,
  -- failures and parking, or none if there is no next deadline.
  pub sweep_evaluate_settles :
      (matched : Bool) (due : Option ℕ)
      → env.active_version_for k.tenant_id k.segment_id ≡ ok (some seg)
      → references_event seg.rule ≡ false
      → env.get_profile k.tenant_id k.profile_id ≡ ok (some prof)
      → evaluate env.runtime at env.store (swept_context prof) seg.rule ≡ ok matched
      → next_due_at env.runtime at (reader env.store) (swept_context prof) seg.rule ≡ ok due
      → (w' : World) × (sweep_evaluate env now k at w ≡ ok w')
        × (is_member (w'.memberships.members (swept_key env now k seg prof)) ≡ matched)
        × (w'.pending (swept_key env now k seg prof) ≡ fresh_row due)
  unfolding sweep_evaluate sweep_version sweep_profile wrap commit_flip
  sweep_evaluate_settles matched due v n p m d =
      let q = swept_key env now k seg prof in
      (
        commit_flip env now q seg "sweep" matched (plan_of due) w,
        rw (v, n) (rw p (rw m (rw d refl))),
        flip_and_emit_settles q seg.version seg.version_id "sweep" now w.memberships matched,
        arm_deadline-fresh q due w.pending,
      )
