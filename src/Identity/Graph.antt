-- ===== src/Identity/Graph.antt =====
-- internal/identity/repo.go: the identity graph. Clusters and memberships are maps from their keys,
-- the tenant first; the set that SELECT DISTINCT returns is listed by first occurrence.
pub mod Clusters
pub mod Updates
pub mod Rows
use osscdp.Prelude.{
  ℕ, String, ◌==◌, Bool, true, false, not, ◌&&◌, ◌||◌, Option, none, some, List, [], ◌∷◌, ◌++◌, ltb,
  eqb, if◌then◌else◌, is_empty,
}

-- A row of identity_node.
pub record Node : Type 0 where
  pub id : ℕ
  pub tenant_id : ℕ
  pub namespace : String
  pub value_hash : String
  pub value_encrypted : Option String

-- ClusterActive and ClusterMerged
pub data ClusterStatus : Type 0 where
  active merged : ClusterStatus

pub record Cluster : Type 0 where
  pub canonical_user_id : String
  pub status : ClusterStatus
  pub created_at : ℕ

-- A row of identity_merge_history.
pub record Merge : Type 0 where
  pub tenant_id : ℕ
  pub from_cluster_id : ℕ
  pub to_cluster_id : ℕ
  pub event_id : Option String

pub record Graph : Type 0 where
  pub nodes : List Node
  pub clusters : ℕ → ℕ → Option Cluster
  pub members : ℕ → ℕ → Option ℕ
  pub history : List Merge

abbrev pub is_in : ℕ → List ℕ → Bool
is_in n [] = false
is_in n (x ∷ xs) = eqb x n || is_in n xs

-- The unique key of identity_node.
abbrev pub is_node : ℕ → String → String → Node → Bool
is_node tenant namespace hash n =
    eqb n.tenant_id tenant && (n.namespace == namespace && n.value_hash == hash)

unfoldable pub find_node : ℕ → String → String → List Node → Option ℕ
find_node tenant namespace hash [] = none
find_node tenant namespace hash (n ∷ ns) =
    let rest = find_node tenant namespace hash ns in
    if is_node tenant namespace hash n then some n.id else rest

-- COALESCE(identity_node.value_encrypted, EXCLUDED.value_encrypted)
abbrev coalesce : Option String → Option String → Option String
coalesce none b = b
coalesce (some a) b = some a

unfoldable pub backfill : ℕ → String → String → Option String → List Node → List Node
backfill tenant namespace hash enc [] = []
backfill tenant namespace hash enc (n ∷ ns) =
    let rest = backfill tenant namespace hash enc ns in
    (if is_node tenant namespace hash n
      then record n { value_encrypted = coalesce n.value_encrypted enc }
      else n)
    ∷ rest

-- upsertNode: the id of a new row, then the node; its id is returned.
unfoldable pub upsert_node : ℕ → ℕ → String → String → Option String → List Node → List Node × ℕ
unfolding find_node backfill
upsert_node id tenant namespace hash enc nodes = elim (find_node tenant namespace hash nodes) [
  | some found ↦ (backfill tenant namespace hash enc nodes, found)
  | none ↦ (
    nodes
        ++ (record {
          id = id;
          tenant_id = tenant;
          namespace = namespace;
          value_hash = hash;
          value_encrypted = enc;
        })
          ∷ [],
    id,
  )
]

abbrev add_distinct : Option ℕ → List ℕ → List ℕ
add_distinct none cs = cs
add_distinct (some c) cs = if is_in c cs then cs else c ∷ cs

-- clustersForNodes
unfoldable pub clusters_for : (ℕ → Option ℕ) → List ℕ → List ℕ
clusters_for members [] = []
clusters_for members (n ∷ ns) = add_distinct (members n) (clusters_for members ns)

abbrev pub is_older : ℕ → Cluster → ℕ → Cluster → Bool
is_older i a j b = ltb a.created_at b.created_at || (eqb a.created_at b.created_at && ltb i j)

abbrev older_of : ℕ → Cluster → Option (ℕ × Cluster) → Option (ℕ × Cluster)
older_of i a none = some (i, a)
older_of i a (some (j, b)) = if is_older j b i a then some (j, b) else some (i, a)

abbrev older : ℕ → Option Cluster → Option (ℕ × Cluster) → Option (ℕ × Cluster)
older i none best = best
older i (some a) best = older_of i a best

-- pickSurvivor: the first by created_at, then by id; none is the error of an empty result.
unfoldable pub pick_survivor : (ℕ → Option Cluster) → List ℕ → Option (ℕ × Cluster)
pick_survivor clusters [] = none
pick_survivor clusters (c ∷ cs) = older c (clusters c) (pick_survivor clusters cs)

-- `without`
unfoldable pub without : ℕ → List ℕ → List ℕ
without x [] = []
without x (c ∷ cs) = let rest = without x cs in if eqb c x then rest else c ∷ rest

-- canonicalsFor
unfoldable pub canonicals_for : (ℕ → Option Cluster) → List ℕ → List String
canonicals_for clusters [] = []
canonicals_for clusters (c ∷ cs) = elim (clusters c) [
  | none ↦ canonicals_for clusters cs
  | some k ↦ k.canonical_user_id ∷ canonicals_for clusters cs
]

abbrev pub moved : List ℕ → ℕ → Option ℕ → Option ℕ
moved losers survivor none = none
moved losers survivor (some c) = if is_in c losers then some survivor else some c

abbrev pub merged_if : Bool → Option Cluster → Option Cluster
merged_if b none = none
merged_if b (some k) = some (if b then record k { status = merged } else k)

-- nullString
abbrev pub null_string : String → Option String
null_string s = if is_empty s then none else some s

unfoldable pub history_of : ℕ → ℕ → String → List ℕ → List Merge
history_of tenant survivor event [] = []
history_of tenant survivor event (l ∷ ls) =
    record {
      tenant_id = tenant;
      from_cluster_id = l;
      to_cluster_id = survivor;
      event_id = null_string event;
    }
    ∷ history_of tenant survivor event ls

-- mergeClusters
unfoldable pub merge_clusters : ℕ → ℕ → List ℕ → String → Graph → Graph
unfolding history_of
merge_clusters tenant survivor losers event g = record g {
  members = λ t n. if eqb t tenant then moved losers survivor (g.members t n) else g.members t n;
  clusters = λ t c. merged_if (eqb t tenant && is_in c losers) (g.clusters t c);
  history = g.history ++ history_of tenant survivor event losers;
}

abbrev pub or_cluster : ℕ → Option ℕ → Option ℕ
or_cluster c none = some c
or_cluster c (some k) = some k

-- addMembers
unfoldable pub add_members : ℕ → ℕ → List ℕ → Graph → Graph
add_members tenant cluster node_ids g = record g {
  members = λ t n.
      if eqb t tenant && is_in n node_ids
      then or_cluster cluster (g.members t n)
      else g.members t n;
}

-- createCluster: its id, its canonical id, the instant.
pub create_cluster : ℕ → ℕ → String → ℕ → Graph → Graph
create_cluster tenant id canonical now g = record g {
  clusters = λ t c.
      if eqb t tenant && eqb c id
      then some (record { canonical_user_id = canonical; status = active; created_at = now })
      else g.clusters t c;
}
