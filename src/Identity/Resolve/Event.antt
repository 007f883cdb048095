-- ===== src/Identity/Resolve/Event.antt =====
-- internal/identity/service.go: one event as a whole, from its identifiers to its cluster, and the
-- same event again.
use osscdp.Prelude.{
  All, ℕ, zero, String, true, some, List, ok, eqb_refl, ◌≡◌, refl, sym, >>=-eq-ok, ok-injective,
}
use osscdp.Events.Envelope.{Envelope}
use osscdp.Identity.Identifier.{Identifier}
use osscdp.Identity.Graph.{Node, Graph, is_in, clusters_for}
use osscdp.Identity.Graph.Updates.{add_members-nodes, create_cluster-nodes, merge_clusters-nodes}
use osscdp.Identity.Graph.Clusters.{All-of_is_in}
use osscdp.Identity.Resolve.{
  Env, Resolved, upsert_nodes, link_nodes, choose_cluster, resolve_tx, only_cluster, merge_into,
}
use osscdp.Identity.Resolve.Choice.{Choice, created, single, merged, choose_cluster-Choice}
use osscdp.Identity.Resolve.Nodes.{Located, Enciphers, upsert_nodes-Located, upsert_nodes-ok}
use osscdp.Identity.Resolve.Joined.{linked, link_nodes-members}
use osscdp.Identity.Resolve.Active.{
  IsLive, IsSound, link_nodes-IsSound, link_nodes-IsLive, link_nodes-ok, IsSound-nodes,
}

-- The graph behind the loop over the identifiers.
abbrev pub with_nodes : List Node → Graph → Graph
with_nodes nodes g = record g { nodes = nodes }

choice-nodes :
    (env : Env) (tenant : ℕ) (event : String) (cs : List ℕ) (g : Graph) (out : Graph × Resolved)
    → Choice env tenant event cs g out
    → out.0.nodes ≡ g.nodes
unfolding only_cluster merge_into
choice-nodes env tenant event cs g out (created p q) = rw q (create_cluster-nodes tenant _ _ _ g)
choice-nodes env tenant event cs g out (single c k p h q) = rw q refl
choice-nodes env tenant event cs g out (merged s k p q) =
    rw q (merge_clusters-nodes tenant s _ event g)

-- Each of the identifiers has a node, and the node lies in the cluster.
unfoldable pub Attached : Env → ℕ → List Identifier → Graph → ℕ → Type 0
Attached env tenant ids g c =
    (ns : List ℕ) × Located env tenant g.nodes ids ns × All (λ n. g.members tenant n ≡ some c) ns

module _ (env : Env) (e : Envelope) where
  pub resolve_tx-parts :
      (ids : List Identifier) (g : Graph) (out : Graph × Resolved)
      → resolve_tx env e ids g ≡ ok out
      → (up : List Node × List ℕ) × (upsert_nodes env e.tenant_id zero ids g.nodes ≡ ok up)
        × (link_nodes env e.tenant_id e.event_id up.1 (with_nodes up.0 g) ≡ ok out)
  unfolding resolve_tx
  resolve_tx-parts ids g out h = >>=-eq-ok (upsert_nodes env e.tenant_id zero ids g.nodes) _ h

  pub link_nodes-nodes :
      (ns : List ℕ) (g : Graph) (out : Graph × Resolved)
      → link_nodes env e.tenant_id e.event_id ns g ≡ ok out
      → out.0.nodes ≡ g.nodes
  unfolding link_nodes only_cluster merge_into
  link_nodes-nodes ns g out h =
      let (chosen, c, q) =
        >>=-eq-ok
          (choose_cluster env e.tenant_id e.event_id (clusters_for (g.members e.tenant_id) ns) g) _
          h in
      rw (sym (ok-injective q), add_members-nodes e.tenant_id chosen.1.cluster_id ns chosen.0)
        (choice-nodes env e.tenant_id e.event_id (clusters_for (g.members e.tenant_id) ns) g chosen
          (choose_cluster-Choice env e.tenant_id e.event_id
            (clusters_for (g.members e.tenant_id) ns) g chosen c))

  members_of_nodes :
      (ns : List ℕ) (g : Graph) (out : Graph × Resolved)
      → link_nodes env e.tenant_id e.event_id ns g ≡ ok out
      → (n : ℕ) → is_in n ns ≡ true
      → out.0.members e.tenant_id n ≡ some out.1.cluster_id
  unfolding linked
  members_of_nodes ns g out h n i =
      rw
        (
          link_nodes-members env e.tenant_id e.event_id ns g out h e.tenant_id n,
          eqb_refl e.tenant_id,
          i,
        )
        refl

  pub resolve_tx-Attached :
      (ids : List Identifier) (g : Graph) (out : Graph × Resolved)
      → resolve_tx env e ids g ≡ ok out
      → Attached env e.tenant_id ids out.0 out.1.cluster_id
  unfolding Attached
  resolve_tx-Attached ids g out h =
      let (up, u, l) = resolve_tx-parts ids g out h in
      (
        up.1,
        rw (link_nodes-nodes up.1 (with_nodes up.0 g) out l)
            (upsert_nodes-Located env e.tenant_id zero ids g.nodes up u),
        All-of_is_in _ up.1 (members_of_nodes up.1 (with_nodes up.0 g) out l),
      )

  pub resolve_tx-IsSound :
      (ids : List Identifier) (g : Graph) (out : Graph × Resolved)
      → IsSound g
      → resolve_tx env e ids g ≡ ok out
      → IsSound out.0 × IsLive out.0 e.tenant_id out.1.cluster_id
  resolve_tx-IsSound ids g out s h =
      let (up, u, l) = resolve_tx-parts ids g out h in
      let s' = IsSound-nodes g up.0 s in
      (
        link_nodes-IsSound env e.tenant_id e.event_id up.1 (with_nodes up.0 g) s' out l,
        link_nodes-IsLive env e.tenant_id e.event_id up.1 (with_nodes up.0 g) s' out l,
      )

  pub resolve_tx-ok :
      Enciphers env
      → (ids : List Identifier) (g : Graph) → IsSound g
      → (out : Graph × Resolved) × (resolve_tx env e ids g ≡ ok out)
  unfolding resolve_tx
  resolve_tx-ok enc ids g s =
      let (up, u) = upsert_nodes-ok env e.tenant_id enc zero ids g.nodes in
      let (out, l) =
        link_nodes-ok env e.tenant_id e.event_id up.1 (with_nodes up.0 g)
          (IsSound-nodes g up.0 s) in
      (out, rw u l)
