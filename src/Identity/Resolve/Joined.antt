-- ===== src/Identity/Resolve/Joined.antt =====
-- internal/identity/service.go: the membership after a resolution. The clusters of the event's nodes
-- and those of its nodes that are in none become one; all others stay as they are.
use osscdp.Prelude.{
  ℕ, String, Bool, true, false, ◌||◌, ◌&&◌, Option, none, some, List, [], ◌∷◌, ok, eqb, eqb→eq,
  eqb_refl, if◌then◌else◌, ◌≡◌, refl, sym, ◌⊎◌, inl, inr, arith, Bool-cases, >>=-eq-ok,
  ok-injective,
}
use osscdp.Identity.Graph.{Graph, is_in, clusters_for, without, or_cluster, merge_clusters}
use osscdp.Identity.Graph.Clusters.{
  lies_in, settled, lies_in-clusters_for, pick_survivor-Chosen, moved-settled,
}
use osscdp.Identity.Graph.Updates.{
  create_cluster-members, merge_clusters-members, add_members-members,
}
use osscdp.Identity.Resolve.{Env, Resolved, link_nodes, merge_into, only_cluster, choose_cluster}
use osscdp.Identity.Resolve.Choice.{Choice, created, single, merged, choose_cluster-Choice}

-- The clusters that the nodes of the event lie in.
unfoldable pub candidates : ℕ → List ℕ → Graph → List ℕ
candidates tenant ids g = clusters_for (g.members tenant) ids

-- Whether the event says of a node that it is the same person: it is one of the event's, or it lies
-- in the cluster of one.
unfoldable pub linked : ℕ → List ℕ → Graph → ℕ → Bool
unfolding candidates
linked tenant ids g n = is_in n ids || lies_in (candidates tenant ids g) (g.members tenant n)

settled-one : (c : ℕ) (o : Option ℕ) → o ≡ settled (c ∷ []) c o
settled-one c none = refl
settled-one c (some d) = elim (Bool-cases (eqb c d)) [
  | inl e ↦ rw (e, eqb→eq c d e) refl
  | inr e ↦ rw e refl
]

settled-none : (c : ℕ) (o : Option ℕ) → o ≡ settled [] c o
settled-none c none = refl
settled-none c (some d) = refl

-- The members that `mergeClusters` leaves, in the tenant and outside.
merged-settled :
    (tenant s : ℕ) (cs : List ℕ) (event : String) (g : Graph) (t n : ℕ)
    → is_in s cs ≡ true
    → (merge_clusters tenant s (without s cs) event g).members t n
      ≡ (if eqb t tenant then settled cs s (g.members t n) else g.members t n)
merged-settled tenant s cs event g t n h =
    rw
      (
        merge_clusters-members tenant s (without s cs) event g t n,
        moved-settled s cs (g.members t n) h,
      )
      refl

if-same {ℓ} : {A : Type ℓ} (b : Bool) {x y : A} → x ≡ y → x ≡ (if b then y else x)
if-same true h = h
if-same false h = refl

-- Before the event's nodes are added.
choose_cluster-settled :
    (env : Env) (tenant : ℕ) (event : String) (cs : List ℕ) (g : Graph) (out : Graph × Resolved)
    → Choice env tenant event cs g out
    → (t n : ℕ)
    → out.0.members t n
      ≡ (if eqb t tenant then settled cs out.1.cluster_id (g.members t n) else g.members t n)
unfolding only_cluster merge_into
choose_cluster-settled env tenant event cs g out (created p q) t n =
    rw (p, q, create_cluster-members tenant env.new_cluster env.new_canonical env.now g)
      (if-same (eqb t tenant) (settled-none env.new_cluster (g.members t n)))
choose_cluster-settled env tenant event cs g out (single c k p e q) t n =
    rw (p, q) (if-same (eqb t tenant) (settled-one c (g.members t n)))
choose_cluster-settled env tenant event cs g out (merged s k e q) t n = rw q (
    merged-settled tenant s cs event g t n (pick_survivor-Chosen (g.clusters tenant) cs (s, k) e).0)

-- A node of the event behind `addMembers`.
settled-added :
    (cs : List ℕ) (s : ℕ) (i : Bool) (o : Option ℕ)
    → (i ≡ true → (o ≡ none) ⊎ (lies_in cs o ≡ true))
    → (if i then or_cluster s (settled cs s o) else settled cs s o)
      ≡ (if i || lies_in cs o then some s else o)
settled-added cs s false o h = refl
settled-added cs s true none h = refl
settled-added cs s true (some c) h = elim (h refl) [
  | inl e ↦ absurd (ground arith)
  | inr e ↦ rw e refl
]

-- The membership of every node, of every tenant, behind a resolution.
pub link_nodes-members :
    (env : Env) (tenant : ℕ) (event : String) (ids : List ℕ) (g : Graph) (out : Graph × Resolved)
    → link_nodes env tenant event ids g ≡ ok out
    → (t n : ℕ)
    → out.0.members t n
      ≡ (if eqb t tenant && linked tenant ids g n then some out.1.cluster_id else g.members t n)
unfolding link_nodes linked candidates
link_nodes-members env tenant event ids g out h t n =
    let (chosen, c, e) =
      >>=-eq-ok (choose_cluster env tenant event (clusters_for (g.members tenant) ids) g) _ h in
    let before =
      choose_cluster-settled env tenant event (clusters_for (g.members tenant) ids) g chosen
        (choose_cluster-Choice env tenant event (clusters_for (g.members tenant) ids) g chosen c) t
        n in
    rw
      (
        sym (ok-injective e),
        add_members-members tenant chosen.1.cluster_id ids chosen.0 t n,
        before,
      )
      (elim (Bool-cases (eqb t tenant)) [
        | inr k ↦ rw k refl
        | inl k ↦
            rw (eqb→eq t tenant k, eqb_refl tenant)
              (settled-added (clusters_for (g.members tenant) ids) chosen.1.cluster_id (is_in n ids)
                (g.members tenant n) (lies_in-clusters_for (g.members tenant) n ids))
      ])
