-- ===== src/Identity/Resolve/Examples.antt =====
-- A concrete event that merges two persons, and its replay.
use osscdp.Prelude.{
  ◌&&◌, ◌||◌, if◌then◌else◌, ℕ, true, false, Option, none, some, List, [], ◌∷◌, ok, ◌≡◌, ◌≢◌, refl,
  arith, eqb,
}
use osscdp.Events.Envelope.{Envelope}
use osscdp.Identity.Identifier.Distinct.{Distinct, carries, extract_identifiers-Distinct}
use osscdp.Identity.Identifier.{
  Identifier, extract_identifiers, dedupe, all_identifiers, has_identifier,
}
use osscdp.Identity.Graph.{
  Node, active, Graph, find_node, backfill, upsert_node, clusters_for, pick_survivor, without,
  canonicals_for, history_of, merge_clusters, add_members,
}
use osscdp.Identity.Resolve.{
  Env, Resolved, upsert_nodes, encrypted, only_cluster, merge_into, choose_cluster, link_nodes,
  resolve_tx, resolve_ids, resolve,
}
use osscdp.Identity.Resolve.Nodes.{Located, nowhere, here, node_of, Enciphers}
use osscdp.Identity.Resolve.Joined.{linked}
use osscdp.Identity.Resolve.Active.{IsLive, IsSound}
use osscdp.Identity.Resolve.Event.{Attached}
use osscdp.Identity.Resolve.Again.{resolve-Attached, resolve-IsSound, resolve-ok, resolve-again}
use osscdp.Events.Validate.{validate_event, validate_identify}
use osscdp.Identity.Resolve.Ingested.{validate_event-resolve}
use osscdp.Identity.Resolve.Partition.{together, resolve-partition}

abbrev env : Env
env = record {
  value_hash = λ t namespace value. value;
  cipher = none;
  new_node = λ i. 90;
  new_cluster = 50;
  new_canonical = "customer_50";
  now = 300;
}

abbrev event : Envelope
event = record {
  event_id = "e1";
  tenant_id = 1;
  source_id = 2;
  type_name = "identify";
  event_name = "";
  identifiers = record {
    user_id = "u";
    anonymous_id = "";
    email = "m";
    phone = "";
    external_id = "";
    device_id = "";
  };
  previous_id = "";
  timestamp = 0;
  received_at = 0;
  context = "{}";
  properties = "{}";
  traits = "{}";
  ts_provided = false;
}

abbrev rows : List Node
rows =
    record {
      id = 1;
      tenant_id = 1;
      namespace = "user_id";
      value_hash = "u";
      value_encrypted = none;
    }
    ∷ record {
      id = 2;
      tenant_id = 1;
      namespace = "email";
      value_hash = "m";
      value_encrypted = none;
    }
    ∷ []

-- The node 1 lies in the cluster 10, all others in the cluster 11.
abbrev membership : ℕ → ℕ → Option ℕ
membership t n = if eqb n 1 then some 10 else some 11

abbrev before : Graph
before = record {
  nodes = rows;
  clusters =
      λ t c. some (record { canonical_user_id = "customer"; status = active; created_at = c });
  members = membership;
  history = [];
}

abbrev merged : Graph
merged = add_members 1 10 (1 ∷ 2 ∷ []) (merge_clusters 1 10 (11 ∷ []) "e1" before)

abbrev answer : Resolved
answer = record {
  cluster_id = 10;
  canonical_user_id = "customer";
  merge_occurred = true;
  merged_canonicals = "customer" ∷ [];
}

abbrev replayed : Resolved
replayed = record {
  cluster_id = 10;
  canonical_user_id = "customer";
  merge_occurred = false;
  merged_canonicals = [];
}

merges : resolve env event before ≡ ok (merged, some answer)
unfolding resolve resolve_ids resolve_tx upsert_nodes encrypted link_nodes choose_cluster merge_into
    extract_identifiers dedupe all_identifiers has_identifier find_node backfill upsert_node
    clusters_for pick_survivor without canonicals_for history_of merge_clusters add_members
merges = refl

replays : resolve env event merged ≡ ok (add_members 1 10 (1 ∷ 2 ∷ []) merged, some replayed)
unfolding resolve resolve_ids resolve_tx upsert_nodes encrypted link_nodes choose_cluster
    only_cluster extract_identifiers dedupe all_identifiers has_identifier find_node backfill
    upsert_node clusters_for pick_survivor without canonicals_for history_of merge_clusters
    add_members
replays = refl

before-IsSound : IsSound before
unfolding IsSound IsLive
before-IsSound t n c h = (_, refl, refl)

env-Enciphers : Enciphers env
unfolding Enciphers encrypted
env-Enciphers v = (none, refl)

resolve-Attached_example : Attached env 1 (extract_identifiers event) merged 10
resolve-Attached_example = resolve-Attached env event before merged answer merges

resolve-IsSound_example :
    IsSound merged × ((r : Resolved) → some answer ≡ some r → IsLive merged 1 r.cluster_id)
resolve-IsSound_example =
    resolve-IsSound env event before merged (some answer) before-IsSound merges

resolve-ok_example : (out : Graph × Option Resolved) × (resolve env event before ≡ ok out)
resolve-ok_example = resolve-ok env event before before-IsSound env-Enciphers

resolve-again_example :
    (replayed.cluster_id ≡ answer.cluster_id)
    × (replayed.merge_occurred ≡ false)
    × ((add_members 1 10 (1 ∷ 2 ∷ []) merged).clusters ≡ merged.clusters)
    × ((t n : ℕ) → (add_members 1 10 (1 ∷ 2 ∷ []) merged).members t n ≡ merged.members t n)
resolve-again_example =
    resolve-again env env event refl before merged (add_members 1 10 (1 ∷ 2 ∷ []) merged) answer
      replayed merges replays

members_old : (n : ℕ) → membership 1 n ≢ some 50
members_old n h = ground arith

located : Located env 1 merged.nodes (extract_identifiers event) (1 ∷ 2 ∷ [])
unfolding node_of extract_identifiers dedupe all_identifiers has_identifier find_node merge_clusters
    add_members
located = here _ 1 refl (here _ 2 refl nowhere)

resolve-partition_example :
    together merged 1 1 2
    ≡ (together before 1 1 2 || (linked 1 (1 ∷ 2 ∷ []) before 1 && linked 1 (1 ∷ 2 ∷ []) before 2))
resolve-partition_example =
    resolve-partition env event before merged answer (1 ∷ 2 ∷ []) members_old merges located 1 2

let_in : validate_event event ≡ ok tt
unfolding validate_event validate_identify
let_in = refl

validate_event-resolve_example :
    (g' : Graph) × (r : Resolved) × (resolve env event before ≡ ok (g', some r))
validate_event-resolve_example =
    validate_event-resolve env event before let_in before-IsSound env-Enciphers

extract_identifiers-Distinct_example :
    Distinct (extract_identifiers event)
    × ((a : Identifier) → has_identifier a (extract_identifiers event) ≡ carries event a)
extract_identifiers-Distinct_example = extract_identifiers-Distinct event
