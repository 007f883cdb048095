-- ===== src/Identity/Resolve.antt =====
-- internal/identity/service.go: `resolveTx`. It runs under row locks in one transaction, and is one
-- step; the hash, the cipher and the ids of new rows are parameters.
pub mod Nodes
pub mod Choice
pub mod Joined
pub mod Ingested
mod Examples
pub mod Again
pub mod Event
pub mod Active
pub mod Partition
use osscdp.Prelude.{
  ℕ, zero, suc, String, Bool, true, false, Option, none, some, List, [], ◌∷◌, ◌++◌, if◌then◌else◌,
  Result, ok, err, ◌>>=◌,
}
use osscdp.Events.Envelope.{Envelope}
use osscdp.Identity.Identifier.{Identifier, extract_identifiers}
use osscdp.Identity.Graph.{
  Node, Cluster, Graph, upsert_node, clusters_for, pick_survivor, without, canonicals_for,
  merge_clusters, add_members, create_cluster, null_string,
}

pub data IdentityError : Type 0 where
  encrypt_failed : String → IdentityError
  no_cluster no_survivor : IdentityError

-- The parameters of one resolution: ValueHash, the cipher, the id of a new node at the place of its
-- identifier, the id and the canonical id of a new cluster, the instant.
pub record Env : Type 0 where
  pub value_hash : ℕ → String → String → String
  pub cipher : Option (String → Result IdentityError String)
  pub new_node : ℕ → ℕ
  pub new_cluster : ℕ
  pub new_canonical : String
  pub now : ℕ

-- Result
pub record Resolved : Type 0 where
  pub cluster_id : ℕ
  pub canonical_user_id : String
  pub merge_occurred : Bool
  pub merged_canonicals : List String

unfoldable pub encrypted :
    Option (String → Result IdentityError String) → String → Result IdentityError (Option String)
encrypted none value = ok none
encrypted (some f) value = do enc ← f value; ok (null_string enc)

module _ (env : Env) where
  -- The loop over the identifiers, from the place `i` on.
  pub upsert_nodes : ℕ → ℕ → List Identifier → List Node → Result IdentityError (List Node × List ℕ)
  unfolding encrypted
  upsert_nodes tenant i [] nodes = ok (nodes, [])
  upsert_nodes tenant i (a ∷ as') nodes = do
    enc ← encrypted env.cipher a.value
    let (nodes', id) =
        upsert_node (env.new_node i) tenant a.namespace (env.value_hash tenant a.namespace a.value)
          enc nodes
    rest ← upsert_nodes tenant (suc i) as' nodes'
    ok (rest.0, id ∷ rest.1)

  pub only_cluster : Cluster → ℕ → Graph → Graph × Resolved
  only_cluster k c g = (
    g,
    record {
      cluster_id = c;
      canonical_user_id = k.canonical_user_id;
      merge_occurred = false;
      merged_canonicals = [];
    },
  )

  pub merge_into : ℕ → String → List ℕ → Graph → ℕ × Cluster → Graph × Resolved
  merge_into tenant event cs g (s, k) = (
    merge_clusters tenant s (without s cs) event g,
    record {
      cluster_id = s;
      canonical_user_id = k.canonical_user_id;
      merge_occurred = true;
      merged_canonicals = canonicals_for (g.clusters tenant) (without s cs);
    },
  )

  -- The `switch len(clusterIDs)`.
  pub choose_cluster : ℕ → String → List ℕ → Graph → Result IdentityError (Graph × Resolved)
  unfolding only_cluster merge_into
  choose_cluster tenant event [] g = ok (
    create_cluster tenant env.new_cluster env.new_canonical env.now g,
    record {
      cluster_id = env.new_cluster;
      canonical_user_id = env.new_canonical;
      merge_occurred = false;
      merged_canonicals = [];
    },
  )
  choose_cluster tenant event (c ∷ []) g = elim (g.clusters tenant c) [
    | none ↦ err no_cluster
    | some k ↦ ok (only_cluster k c g)
  ]
  choose_cluster tenant event (c ∷ c' ∷ cs) g =
      elim (pick_survivor (g.clusters tenant) (c ∷ c' ∷ cs)) [
        | none ↦ err no_survivor
        | some s ↦ ok (merge_into tenant event (c ∷ c' ∷ cs) g s)
      ]

  -- The part of resolveTx behind the nodes.
  pub link_nodes : ℕ → String → List ℕ → Graph → Result IdentityError (Graph × Resolved)
  unfolding choose_cluster
  link_nodes tenant event node_ids g = do
    chosen ← choose_cluster tenant event (clusters_for (g.members tenant) node_ids) g
    ok (add_members tenant chosen.1.cluster_id node_ids chosen.0, chosen.1)

  -- resolveTx
  pub resolve_tx : Envelope → List Identifier → Graph → Result IdentityError (Graph × Resolved)
  unfolding upsert_nodes link_nodes
  resolve_tx e ids g = do
    upserted ← upsert_nodes e.tenant_id zero ids g.nodes
    link_nodes e.tenant_id e.event_id upserted.1 (record g { nodes = upserted.0 })

  -- Resolve, but for its emit: none for an event with no identifier.
  pub resolve_ids :
      Envelope → List Identifier → Graph → Result IdentityError (Graph × Option Resolved)
  unfolding resolve_tx
  resolve_ids e [] g = ok (g, none)
  resolve_ids e (a ∷ as') g = do out ← resolve_tx e (a ∷ as') g; ok (out.0, some out.1)

  pub resolve : Envelope → Graph → Result IdentityError (Graph × Option Resolved)
  unfolding resolve_ids
  resolve e g = resolve_ids e (extract_identifiers e) g
