-- ===== src/Identity/Graph/Updates.antt =====
-- internal/identity/repo.go: the clusters and the members behind createCluster, mergeClusters and
-- addMembers.
use osscdp.Prelude.{ℕ, ◌&&◌, some, List, eqb, if◌then◌else◌, String, ◌≡◌, refl}
use osscdp.Identity.Graph.{
  active, Graph, is_in, moved, or_cluster, merge_clusters, add_members, create_cluster, merged_if,
}

pub create_cluster-members :
    (t id : ℕ) (k : String) (now : ℕ) (g : Graph)
    → (create_cluster t id k now g).members ≡ g.members
unfolding create_cluster
create_cluster-members t id k now g = refl

pub create_cluster-clusters :
    (t id : ℕ) (k : String) (now : ℕ) (g : Graph) (t' c : ℕ)
    → (create_cluster t id k now g).clusters t' c ≡ (
        if eqb t' t && eqb c id
        then some (record { canonical_user_id = k; status = active; created_at = now })
        else g.clusters t' c)
unfolding create_cluster
create_cluster-clusters t id k now g t' c = refl

pub merge_clusters-members :
    (t s : ℕ) (ls : List ℕ) (event : String) (g : Graph) (t' n : ℕ)
    → (merge_clusters t s ls event g).members t' n
      ≡ (if eqb t' t then moved ls s (g.members t' n) else g.members t' n)
unfolding merge_clusters
merge_clusters-members t s ls event g t' n = refl

pub merge_clusters-clusters :
    (t s : ℕ) (ls : List ℕ) (event : String) (g : Graph) (t' c : ℕ)
    → (merge_clusters t s ls event g).clusters t' c
      ≡ merged_if (eqb t' t && is_in c ls) (g.clusters t' c)
unfolding merge_clusters
merge_clusters-clusters t s ls event g t' c = refl

pub add_members-members :
    (t c : ℕ) (ns : List ℕ) (g : Graph) (t' n : ℕ)
    → (add_members t c ns g).members t' n
      ≡ (if eqb t' t && is_in n ns then or_cluster c (g.members t' n) else g.members t' n)
unfolding add_members
add_members-members t c ns g t' n = refl

pub add_members-clusters :
    (t c : ℕ) (ns : List ℕ) (g : Graph) → (add_members t c ns g).clusters ≡ g.clusters
unfolding add_members
add_members-clusters t c ns g = refl

pub add_members-nodes : (t c : ℕ) (ns : List ℕ) (g : Graph) → (add_members t c ns g).nodes ≡ g.nodes
unfolding add_members
add_members-nodes t c ns g = refl

pub create_cluster-nodes :
    (t id : ℕ) (k : String) (now : ℕ) (g : Graph) → (create_cluster t id k now g).nodes ≡ g.nodes
unfolding create_cluster
create_cluster-nodes t id k now g = refl

pub merge_clusters-nodes :
    (t s : ℕ) (ls : List ℕ) (event : String) (g : Graph)
    → (merge_clusters t s ls event g).nodes ≡ g.nodes
unfolding merge_clusters
merge_clusters-nodes t s ls event g = refl
