-- ===== src/Activation/Fanout/Examples.antt =====
-- A membership change with one active subscription, and a send behind the consent gate.
use osscdp.Prelude.{
  ℕ, String, Bool, true, false, Option, none, some, List, [], ◌∷◌, ◌≡◌, refl, inl, Result, ok,
}
use osscdp.Runtime.Json.{end}
use osscdp.Profile.Merge.{CustomerProfile}
use osscdp.Consent.{Key, Consent, status_of, reparent_consent}
use osscdp.Consent.Reparent.{Unique}
use osscdp.Activation.Task.{create_task}
use osscdp.Activation.Service.{
  ServiceError, Destination, Db, Env, Send, get_destination, enqueue_send,
}
use osscdp.Activation.Fanout.{
  SegmentSubscription, MembershipChange, FanoutError, active_subscriptions, on_membership_changed,
  fan_out, with_read, with_payload, enqueue_each,
}
use osscdp.Activation.Fanout.Redelivery.{AllHaveTask, on_membership_changed-again}
use osscdp.Activation.Fanout.Gate.{gate, NothingToSend, enqueue_send-reparented}

abbrev env : Env
env = record { digest = λ k. k.source_event_id; consent = none }

abbrev webhook : Destination
webhook = record {
  id = 9;
  tenant_id = 1;
  type_name = "webhook";
  consent_channel = "email";
  consent_purpose = "";
}

abbrev start_db : Db
start_db = record { destinations = webhook ∷ []; journey_subscriptions = []; tasks = [] }

abbrev subscription : ℕ → Bool → SegmentSubscription
subscription id active = record {
  id = id;
  tenant_id = 1;
  destination_id = 9;
  segment_id = 5;
  is_active = active;
}

abbrev subs : List SegmentSubscription
subs = subscription 20 true ∷ subscription 21 false ∷ []

abbrev change : MembershipChange
change = record {
  tenant_id = 1;
  segment_id = 5;
  profile_id = 3;
  change = "entered";
  reason_event_id = "e1";
  transition_seq = 1;
  changed_at = 100;
}

abbrev person : CustomerProfile
person = record {
  id = 3;
  tenant_id = 1;
  canonical_user_id = "c1";
  identity_cluster_id = 4;
  traits = end;
  computed_attributes = end;
  first_seen_at = none;
  last_seen_at = none;
  version = 1;
}

abbrev reads : ℕ → ℕ → Result FanoutError (Option CustomerProfile)
reads tenant id = ok (some person)

abbrev misses : ℕ → ℕ → Result FanoutError (Option CustomerProfile)
misses tenant id = ok none

abbrev payload : String → MembershipChange → CustomerProfile → Result FanoutError String
payload text mc p = ok text

abbrev denies : Option (ℕ → ℕ → String → String → Result ServiceError String)
denies = some (λ t p channel purpose. ok "denied")

abbrev after : Db
after = (on_membership_changed env (λ s. s) reads (payload "a") change (λ d. true) subs start_db).0

handles :
    on_membership_changed env (λ s. s) reads (payload "a") change (λ d. true) subs start_db
    ≡ (after, none)
unfolding on_membership_changed active_subscriptions fan_out with_read with_payload enqueue_each
    enqueue_send create_task
handles = refl

on_membership_changed-again_example :
    AllHaveTask env.digest change (active_subscriptions 1 5 (λ d. true) subs) after.tasks
    × ((on_membership_changed
          (record env { consent = denies })
          (λ s. s)
          reads
          (payload "b")
          change
          (λ d. true)
          subs
          after).0
        ≡ after)
on_membership_changed-again_example =
    on_membership_changed-again env denies change (λ d. true) subs (λ s. s) (λ s. s) reads reads
      (payload "a") (payload "b") start_db after {p = person} refl handles

abbrev key : ℕ → Key
key profile = record {
  tenant_id = 1;
  profile_id = profile;
  channel = "email";
  purpose = "marketing";
}

abbrev rows : List Consent
rows = record { key = key 4; status = "denied"; source = none; updated_at = 5 } ∷ []

rows-Unique : Unique rows
unfolding Unique status_of
rows-Unique = (refl, tt)

abbrev send : Send
send = record {
  tenant_id = 1;
  destination_id = 9;
  profile_id = 3;
  source_event_id = "e1";
  change = "entered";
  payload = "{}";
}

enqueue_send-reparented_example :
    (out : Db × Bool) × ((enqueue_send
          (record env { consent = gate (reparent_consent 1 4 3 9 rows) })
          send
          20
          60
          start_db
        ≡ ok out)
      × NothingToSend [] out.0.tasks)
unfolding get_destination status_of
enqueue_send-reparented_example =
    enqueue_send-reparented env 4 9 rows send 20 60 start_db {d = webhook} rows-Unique refl refl
      (inl refl)
