-- ===== src/Segment/Service/Examples.antt =====
-- An evaluation and a sweep of a concrete segment.
use osscdp.Prelude.{◌≡◌, refl, true, false, none, some, [], ◌∷◌, ok}
use osscdp.Segment.Evaluate.{evaluate, spec_window}
use osscdp.Segment.DueAt.{earlier, leaf_due_at, due_walk, next_due_at, references_event}
use osscdp.Segment.Window.{parse_window}
use osscdp.Segment.Membership.{Key}
use osscdp.Segment.Membership.Mirror.{Mirrors, is_member}
use osscdp.Segment.Service.{
  ActiveVersion, Env, World, ProfileUpdated, evaluate_update, swept_key, sweep_evaluate,
}
use osscdp.Segment.Service.Mirror.{start, updated, reachable-Mirrors}
use osscdp.Segment.Service.Sweep.{fresh_row, sweep_evaluate_settles}
use osscdp.Samples.{
  sample_runtime, sample_store, sample_profile, sample_context, behavioral, leaf_of,
}

abbrev segment : ActiveVersion
segment = record {
  segment_id = 5;
  version_id = 8;
  version = 2;
  rule = leaf_of (behavioral "recency" "1d");
  has_stateless = false;
  referenced_names = "login" ∷ [];
}

abbrev env : Env
env = record {
  runtime = sample_runtime;
  get_profile = λ t p. ok (some sample_profile);
  active_versions = λ t. ok (segment ∷ []);
  active_version_for = λ t s. ok (some segment);
  store = some sample_store;
}

abbrev key : Key
key = record { tenant_id = 1; segment_id = 5; profile_id = 7 }

abbrev world : World
world = record { memberships = record { members = λ k. none; outbox = [] }; pending = λ k. none }

abbrev update : ProfileUpdated
update = record {
  tenant_id = 1;
  customer_profile_id = 7;
  event_id = "e1";
  event = sample_context.event;
  timestamp = 1000;
  received_at = 1001;
}

reachable-Mirrors_example : Mirrors key (evaluate_update env 1002 update world).0.memberships
reachable-Mirrors_example = reachable-Mirrors key (updated env 1002 update (start world.pending))

sweep_evaluate_settles_example :
    (w' : World) × (sweep_evaluate env 2000 key 2000 world ≡ ok w')
    × (is_member (w'.memberships.members (swept_key env 2000 key segment sample_profile)) ≡ true)
    × (w'.pending (swept_key env 2000 key segment sample_profile)
        ≡ fresh_row (some 86_400_000_001_000))
unfolding references_event evaluate next_due_at leaf_due_at due_walk earlier spec_window
    parse_window
sweep_evaluate_settles_example =
    sweep_evaluate_settles env 2000 key 2000 world segment sample_profile true
      (some 86_400_000_001_000) refl refl refl refl refl
