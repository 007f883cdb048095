-- ===== src/Segment/Service.antt =====
-- internal/segment/service.go: the evaluation of a profile on an event, and the sweep of a deadline.
-- Each transaction is one step. What the service reads elsewhere is in `Env`; the cache of the active
-- versions is left out.
pub mod Mirror
pub mod Examples
pub mod Sweep
use osscdp.Prelude.{
  ℕ, ◌+◌, ◌-◌, String, ◌==◌, Bool, true, false, not, ◌&&◌, ◌||◌, Option, none, some, List, [], ◌∷◌,
  ltb, if◌then◌else◌, Result, ok, err, ◌>>=◌,
}
use osscdp.Runtime.{Runtime}
use osscdp.Segment.Rule.{Rule}
use osscdp.Segment.Store.{EvalError, BehaviorStore, reader}
use osscdp.Segment.Leaf.{Profile, Event, EvalContext}
use osscdp.Segment.Evaluate.{evaluate}
use osscdp.Segment.DueAt.{next_due_at, references_event}
use osscdp.Segment.Membership.{Key, Memberships, flip_and_emit}
use osscdp.Segment.Pending.{PendingTable, upsert_pending, delete_pending, current_due_at}

pub data SegmentError : Type 0 where
  profile_error version_error : String → SegmentError
  evaluation_failed : EvalError → SegmentError

-- ActiveVersion
pub record ActiveVersion : Type 0 where
  pub segment_id : ℕ
  pub version_id : ℕ
  pub version : ℕ
  pub rule : Rule
  pub has_stateless : Bool
  pub referenced_names : List String

pub record Env : Type 0 where
  pub runtime : Runtime
  -- GetByID of the tenant and the profile; none is profile.ErrNotFound
  pub get_profile : ℕ → ℕ → Result SegmentError (Option Profile)
  pub active_versions : ℕ → Result SegmentError (List ActiveVersion)
  pub active_version_for : ℕ → ℕ → Result SegmentError (Option ActiveVersion)
  -- none for nil
  pub store : Option BehaviorStore

pub record World : Type 0 where
  pub memberships : Memberships
  pub pending : PendingTable

-- The fields of profile.ProfileUpdated that the service reads.
pub record ProfileUpdated : Type 0 where
  pub tenant_id : ℕ
  pub customer_profile_id : ℕ
  pub event_id : String
  pub event : Event
  pub timestamp : ℕ
  pub received_at : ℕ

-- time.Minute
abbrev coalesce_granularity : ℕ
coalesce_granularity = 60_000_000_000

abbrev abs_diff : ℕ → ℕ → ℕ
abs_diff a b = (a - b) + (b - a)

contains_string : List String → String → Bool
contains_string [] s = false
contains_string (x ∷ xs) s = x == s || contains_string xs s

wrap : {A : Type 0} → Result EvalError A → Result SegmentError A
wrap (ok a) = ok a
wrap (err e) = err (evaluation_failed e)

-- What armDeadline is to do: set a deadline, delete it, or leave it.
pub data Plan : Type 0 where
  arm : ℕ → Plan
  disarm leave : Plan

coalesce : ℕ → Option (ℕ × Bool) → Plan
coalesce due none = arm due
coalesce due (some (cur, parked)) =
    if not parked && ltb (abs_diff cur due) coalesce_granularity then leave else arm due

coalesced : Key → PendingTable → Option ℕ → Plan
unfolding coalesce
coalesced k t none = disarm
coalesced k t (some due) = coalesce due (current_due_at k t)

-- armDeadline
pub arm_deadline : Key → Plan → PendingTable → PendingTable
arm_deadline k (arm due) t = upsert_pending k due "absence_deadline" t
arm_deadline k disarm t = delete_pending k t
arm_deadline k leave t = t

abbrev pub plan_of : Option ℕ → Plan
plan_of none = disarm
plan_of (some due) = arm due

module _ (env : Env) (now : ℕ) where
  -- planDeadline
  pub plan_deadline :
      ActiveVersion → EvalContext → Key → ℕ → PendingTable → Result SegmentError Plan
  unfolding wrap coalesced
  plan_deadline seg ec k at t = if references_event seg.rule then ok disarm else (do
    due ← wrap (next_due_at env.runtime at (reader env.store) ec seg.rule)
    ok (coalesced k t due))

  -- The transaction of applyMembership and of SweepEvaluate.
  pub commit_flip : Key → ActiveVersion → String → Bool → Plan → World → World
  commit_flip k seg token matched plan w = record {
    memberships = (flip_and_emit k seg.version seg.version_id token now matched w.memberships).0;
    pending = arm_deadline k plan w.pending;
  }

  abbrev pub key_of : ProfileUpdated → ActiveVersion → Key
  key_of pu seg = record {
    tenant_id = pu.tenant_id;
    segment_id = seg.segment_id;
    profile_id = pu.customer_profile_id;
  }

  -- applyMembership
  pub apply_membership :
      ProfileUpdated → ActiveVersion → EvalContext → Bool → ℕ → World → Result SegmentError World
  unfolding plan_deadline commit_flip
  apply_membership pu seg ec matched at w = do
    plan ← plan_deadline seg ec (key_of pu seg) at w.pending
    ok (commit_flip (key_of pu seg) seg pu.event_id matched plan w)

  -- One round of the loop of Evaluate.
  pub evaluate_segment :
      ProfileUpdated → EvalContext → ℕ → ActiveVersion → World → Result SegmentError World
  unfolding contains_string wrap apply_membership
  evaluate_segment pu ec at seg w =
      if not seg.has_stateless && not (contains_string seg.referenced_names pu.event.event_name)
      then ok w
      else (do
        matched ← wrap (evaluate env.runtime at env.store ec seg.rule)
        apply_membership pu seg ec matched at w)

  -- The loop: what is committed before an error stays.
  pub evaluate_segments :
      ProfileUpdated → EvalContext → ℕ → List ActiveVersion → World → World × Option SegmentError
  unfolding evaluate_segment
  evaluate_segments pu ec at [] w = (w, none)
  evaluate_segments pu ec at (seg ∷ segs) w = elim (evaluate_segment pu ec at seg w) [
    | err e ↦ (w, some e)
    | ok w' ↦ evaluate_segments pu ec at segs w'
  ]

  evaluate_versions :
      ProfileUpdated
      → Option Profile
      → Result SegmentError (List ActiveVersion)
      → World
      → World × Option SegmentError
  unfolding evaluate_segments
  evaluate_versions pu none versions w = (w, none)
  evaluate_versions pu (some prof) (err e) w = (w, some e)
  evaluate_versions pu (some prof) (ok segs) w =
      evaluate_segments pu (record { profile = prof; event = pu.event })
        (if ltb pu.received_at pu.timestamp then pu.received_at else pu.timestamp) segs w

  evaluate_found :
      ProfileUpdated → Result SegmentError (Option Profile) → World → World × Option SegmentError
  unfolding evaluate_versions
  evaluate_found pu (err e) w = (w, some e)
  evaluate_found pu (ok found) w = evaluate_versions pu found (env.active_versions pu.tenant_id) w

  -- Evaluate
  pub evaluate_update : ProfileUpdated → World → World × Option SegmentError
  unfolding evaluate_found
  evaluate_update pu w = evaluate_found pu (env.get_profile pu.tenant_id pu.customer_profile_id) w

  -- dropDeadline
  abbrev drop_deadline : Key → World → World
  drop_deadline k w = record w { pending = delete_pending k w.pending }

  -- The key of the flip: the row's tenant, the version's segment, the profile's id.
  abbrev pub swept_key : Key → ActiveVersion → Profile → Key
  swept_key k seg prof = record {
    tenant_id = k.tenant_id;
    segment_id = seg.segment_id;
    profile_id = prof.id;
  }

  pub sweep_profile : Key → ActiveVersion → ℕ → Option Profile → World → Result SegmentError World
  unfolding wrap commit_flip
  sweep_profile k seg at none w = ok (drop_deadline k w)
  sweep_profile k seg at (some prof) w =
      let ec : EvalContext = record {
        profile = prof;
        event = record { event_name = ""; type_name = ""; properties = ""; context = "" };
      } in
      do
        matched ← wrap (evaluate env.runtime at env.store ec seg.rule)
        due ← wrap (next_due_at env.runtime at (reader env.store) ec seg.rule)
        ok (commit_flip (swept_key k seg prof) seg "sweep" matched (plan_of due) w)

  sweep_version : Key → ℕ → Option ActiveVersion → World → Result SegmentError World
  unfolding sweep_profile
  sweep_version k at none w = ok (drop_deadline k w)
  sweep_version k at (some seg) w =
      if references_event seg.rule
      then ok (drop_deadline k w)
      else (do found ← env.get_profile k.tenant_id k.profile_id; sweep_profile k seg at found w)

  -- SweepEvaluate of a claimed row.
  pub sweep_evaluate : Key → ℕ → World → Result SegmentError World
  unfolding sweep_version
  sweep_evaluate k at w = do
    version ← env.active_version_for k.tenant_id k.segment_id
    sweep_version k at version w
