-- ===== src/Profile/Service/Examples.antt =====
-- An event on a canonical id that has no profile yet, and its second delivery.
use osscdp.Prelude.{String, ◌==◌, false, Option, none, some, [], ◌∷◌, ok, ◌≡◌, refl}
use osscdp.Samples.{sample_runtime}
use osscdp.Runtime.Json.{number, text, end, field, get_field}
use osscdp.Events.Envelope.{Envelope}
use osscdp.Profile.Merge.{
  as_stored, stored_profile, CustomerProfile, set_field, set_new, as_string, get_in, parse_object,
  merge_traits, as_int, add_count, order_completed, merge_computed, merge_seen,
}
use osscdp.Profile.Merge.Traits.{latest, merge_traits-latest}
use osscdp.Profile.Merge.Instants.{seen_all, seen_all-extremes, IsEarliest, IsLatest}
use mathlib.Core.List.{Permᴰ}
use osscdp.Profile.Service.{
  Env, Db, Updated, find_profile, has_id, insert_profile, any_version, write_profile,
  update_profile, already_applied, mark_applied, new_profile, find_or_create, redirected, locate,
  fold_losers, merged_event, apply_event, update_located, update_tx,
}
use osscdp.Profile.Service.Table.{Unique}
use osscdp.Profile.Service.Redelivery.{update_tx-again}

abbrev env : Env
env = record {
  runtime = sample_runtime;
  new_profile = 7;
  now = 50;
  uuid_text = λ n. "s";
  survivor_of = λ t k. none;
}

abbrev event : Envelope
event = record {
  event_id = "e1";
  tenant_id = 1;
  source_id = 2;
  type_name = "identify";
  event_name = "";
  identifiers = record {
    user_id = "u";
    anonymous_id = "";
    email = "m";
    phone = "";
    external_id = "";
    device_id = "";
  };
  previous_id = "";
  timestamp = 5;
  received_at = 5;
  context = "";
  properties = "";
  traits = "";
  ts_provided = false;
}

abbrev empty_db : Db
empty_db = record { profiles = []; history = []; consents = [] }

abbrev made : CustomerProfile
made = record {
  id = 7;
  tenant_id = 1;
  canonical_user_id = "customer_1";
  identity_cluster_id = 4;
  traits = field "email" (text "m") end;
  computed_attributes =
      field "total_events" (number 0x4008000000000000) (field "last_source_id" (text "s") end);
  first_seen_at = some 5;
  last_seen_at = some 5;
  version = 1;
}

abbrev after : Db × Option Updated
after = (
  record {
    profiles = made ∷ [];
    history = record { tenant_id = 1; profile_id = 7; event_id = "e1" } ∷ [];
    consents = [];
  },
  some (record {
    profile_id = 7;
    version = 1;
    changed_fields =
        "traits.email" ∷ "computed_attributes.total_events" ∷ "computed_attributes.last_source_id"
        ∷ "first_seen_at" ∷ "last_seen_at" ∷ [];
    reparented = [];
    canonical_user_id = "customer_1";
    cluster_id = 4;
  }),
)

applies : update_tx env "customer_1" 4 [] event empty_db ≡ ok after
unfolding update_tx locate find_profile redirected find_or_create stored_profile as_stored
    insert_profile has_id new_profile update_located already_applied fold_losers apply_event
    merged_event merge_traits set_new set_field get_field parse_object merge_computed add_count
    as_int order_completed merge_seen update_profile any_version write_profile mark_applied
applies = refl

nothing_there : Unique empty_db.profiles
unfolding Unique
nothing_there = tt

update_tx-again_example :
    update_tx env "customer_1" 4 ("customer_0" ∷ []) event after.0 ≡ ok (after.0, none)
update_tx-again_example =
    update_tx-again env env "customer_1" 4 [] ("customer_0" ∷ []) event empty_db after nothing_there
      refl applies

seen_all-extremes_example :
    IsEarliest (some 3) (3 ∷ 9 ∷ [])
    × IsLatest (some 9) (5 ∷ 3 ∷ 9 ∷ [])
    × (seen_all none (some 5) (3 ∷ 9 ∷ []) ≡ seen_all none (some 5) (9 ∷ 3 ∷ []))
unfolding seen_all merge_seen
seen_all-extremes_example = seen_all-extremes none (some 5) (Permᴰ.swap refl refl)

merge_traits-latest_example :
    let tr = parse_object sample_runtime event.traits in
    let out = (merge_traits sample_runtime end event).fields in
    (get_field "email" out
      ≡ latest
          (event.identifiers.email ∷ as_string (get_in "email" tr) ∷ [])
          (get_field "email" end))
    × (get_field "phone" out
        ≡ latest
            (event.identifiers.phone ∷ as_string (get_in "phone" tr) ∷ [])
            (get_field "phone" end))
    × (get_field "name" out ≡ latest (as_string (get_in "name" tr) ∷ []) (get_field "name" end))
    × (get_field "country" out
        ≡ latest (as_string (get_in "country" tr) ∷ []) (get_field "country" end))
    × ((k : String)
        → ("email" == k) ≡ false
        → ("phone" == k) ≡ false
        → ("name" == k) ≡ false
        → ("country" == k) ≡ false
        → get_field k out ≡ get_field k end)
merge_traits-latest_example = merge_traits-latest sample_runtime end event
