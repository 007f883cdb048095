-- ===== src/Activation/Fanout.antt =====
-- internal/activation/service.go: `OnMembershipChanged`, with `ActiveSubscriptionsForSegment` of repo.go.
-- The reader of profiles, the encoder of a payload and the ids of new rows are parameters.
pub mod Redelivery
pub mod Gate
pub mod Examples
use osscdp.Prelude.{
  ℕ, String, Bool, ◌&&◌, Option, none, some, List, [], ◌∷◌, eqb, if◌then◌else◌, Result, ok, err,
}
use osscdp.Profile.Merge.{CustomerProfile}
use osscdp.Activation.Service.{ServiceError, Db, Env, Send, enqueue_send}

-- A row of destination_subscription with trigger_type 'segment_membership'.
pub record SegmentSubscription : Type 0 where
  pub id : ℕ
  pub tenant_id : ℕ
  pub destination_id : ℕ
  pub segment_id : ℕ
  pub is_active : Bool

-- What the service reads of MembershipChanged, the instant and the number being the encoder's.
pub record MembershipChange : Type 0 where
  pub tenant_id : ℕ
  pub segment_id : ℕ
  pub profile_id : ℕ
  pub change : String
  pub reason_event_id : String
  pub transition_seq : ℕ
  pub changed_at : ℕ

-- The errors of the calls of OnMembershipChanged.
pub data FanoutError : Type 0 where
  profile_error payload_error : FanoutError
  send_error : ServiceError → FanoutError

abbrev pub is_triggered : ℕ → ℕ → (ℕ → Bool) → SegmentSubscription → Bool
is_triggered tenant segment is_enabled s =
    eqb s.tenant_id tenant
    && (eqb s.segment_id segment && (s.is_active && is_enabled s.destination_id))

-- ActiveSubscriptionsForSegment: `is_enabled` is the status of the joined destination.
unfoldable pub active_subscriptions :
    ℕ → ℕ → (ℕ → Bool) → List SegmentSubscription → List SegmentSubscription
active_subscriptions tenant segment is_enabled [] = []
active_subscriptions tenant segment is_enabled (s ∷ ss) =
    let rest = active_subscriptions tenant segment is_enabled ss in
    if is_triggered tenant segment is_enabled s then s ∷ rest else rest

-- What a subscription is sent.
abbrev pub send_to : MembershipChange → String → SegmentSubscription → Send
send_to mc payload s = record {
  tenant_id = mc.tenant_id;
  destination_id = s.destination_id;
  profile_id = mc.profile_id;
  source_event_id = mc.reason_event_id;
  change = mc.change;
  payload = payload;
}

module _ (env : Env) (task_id : ℕ → ℕ) where
  -- The loop over the subscriptions: what was stored before an error stays. `task_id` is the id of the
  -- new task of a subscription.
  unfoldable pub enqueue_each :
      MembershipChange → String → List SegmentSubscription → Db → Db × Option FanoutError
  enqueue_each mc payload [] db = (db, none)
  enqueue_each mc payload (s ∷ ss) db =
      elim (enqueue_send env (send_to mc payload s) s.id (task_id s.id) db) [
        | err e ↦ (db, some (send_error e))
        | ok out ↦ enqueue_each mc payload ss out.0
      ]

  module _ (get_profile : ℕ → ℕ → Result FanoutError (Option CustomerProfile))
      (build_payload : MembershipChange → CustomerProfile → Result FanoutError String) where
    -- The payload is built once for all subscriptions.
    unfoldable pub with_payload :
        MembershipChange
        → List SegmentSubscription
        → Db
        → Result FanoutError String
        → Db × Option FanoutError
    unfolding enqueue_each
    with_payload mc subs db (err e) = (db, some e)
    with_payload mc subs db (ok payload) = enqueue_each mc payload subs db

    unfoldable pub with_read :
        MembershipChange
        → List SegmentSubscription
        → Db
        → Result FanoutError (Option CustomerProfile)
        → Db × Option FanoutError
    unfolding with_payload
    with_read mc subs db (err e) = (db, some e)
    with_read mc subs db (ok none) = (db, none)
    with_read mc subs db (ok (some p)) = with_payload mc subs db (build_payload mc p)

    -- Nothing is read where no subscription is active.
    unfoldable pub fan_out :
        MembershipChange → List SegmentSubscription → Db → Db × Option FanoutError
    unfolding with_read
    fan_out mc [] db = (db, none)
    fan_out mc (s ∷ ss) db = with_read mc (s ∷ ss) db (get_profile mc.tenant_id mc.profile_id)

    -- OnMembershipChanged
    unfoldable pub on_membership_changed :
        MembershipChange → (ℕ → Bool) → List SegmentSubscription → Db → Db × Option FanoutError
    unfolding fan_out
    on_membership_changed mc is_enabled subs db =
        fan_out mc (active_subscriptions mc.tenant_id mc.segment_id is_enabled subs) db
