-- ===== src/Identity/Resolve/Active.antt =====
-- internal/identity/service.go: no membership points to a cluster that is merged away or missing, and
-- on such a graph a resolution cannot fail but by its cipher.
use osscdp.Prelude.{
  ℕ, String, Bool, true, false, ◌&&◌, Option, some, List, [], ◌∷◌, ok, eqb, eqb→eq, eqb_refl,
  if◌then◌else◌, ◌≡◌, refl, sym, ap, ◌∙◌, inl, inr, subst, arith, Bool-cases, >>=-eq-ok,
  ok-injective,
}
use osscdp.Identity.Graph.{
  Node, active, Cluster, Graph, is_in, clusters_for, without, create_cluster, merge_clusters,
  add_members,
}
use osscdp.Identity.Graph.Clusters.{
  is_in-clusters_for, pick_survivor-Chosen, pick_survivor-some, without_self, without-outside,
}
use osscdp.Identity.Graph.Updates.{
  create_cluster-clusters, merge_clusters-clusters, add_members-clusters,
}
use osscdp.Identity.Resolve.{Env, Resolved, choose_cluster, link_nodes, only_cluster, merge_into}
use osscdp.Identity.Resolve.Choice.{Choice, of_new, created, single, merged, choose_cluster-Choice}
use osscdp.Identity.Resolve.Joined.{candidates, linked, link_nodes-members}

-- The cluster is there and is not merged away.
unfoldable pub IsLive : Graph → ℕ → ℕ → Type 0
IsLive g t c = (k : Cluster) × (g.clusters t c ≡ some k) × (k.status ≡ active)

unfoldable pub IsSound : Graph → Type 0
IsSound g = (t n c : ℕ) → g.members t n ≡ some c → IsLive g t c

-- The part of a graph that a cluster's liveness depends on.
IsLive-same :
    (g g' : Graph) (t c : ℕ) → g'.clusters t c ≡ g.clusters t c → IsLive g t c → IsLive g' t c
unfolding IsLive
IsLive-same g g' t c e (k, h, a) = (k, e ∙ h, a)

-- Neither reads the rows of the nodes.
pub IsSound-nodes : (g : Graph) (ns : List Node) → IsSound g → IsSound (record g { nodes = ns })
unfolding IsSound IsLive
IsSound-nodes g ns h = h

if_created :
    (b : Bool) (new : Cluster) (o : Option Cluster) (k : Cluster)
    → new.status ≡ active
    → o ≡ some k
    → k.status ≡ active
    → (k' : Cluster) × ((if b then some new else o) ≡ some k') × (k'.status ≡ active)
if_created true new o k a h l = (new, refl, a)
if_created false new o k a h l = (k, h, l)

create_cluster-IsLive :
    (tenant id : ℕ) (name : String) (now : ℕ) (g : Graph) (t c : ℕ)
    → IsLive g t c
    → IsLive (create_cluster tenant id name now g) t c
unfolding IsLive
create_cluster-IsLive tenant id name now g t c (k, h, l) =
    rw (create_cluster-clusters tenant id name now g t c)
      (if_created (eqb t tenant && eqb c id) _ (g.clusters t c) k refl h l)

create_cluster-new :
    (tenant id : ℕ) (name : String) (now : ℕ) (g : Graph)
    → IsLive (create_cluster tenant id name now g) tenant id
unfolding IsLive
create_cluster-new tenant id name now g =
    rw (create_cluster-clusters tenant id name now g tenant id, eqb_refl tenant, eqb_refl id)
      (_, refl, refl)

merge_clusters-IsLive :
    (tenant s : ℕ) (ls : List ℕ) (event : String) (g : Graph) (t c : ℕ)
    → (eqb t tenant && is_in c ls) ≡ false
    → IsLive g t c
    → IsLive (merge_clusters tenant s ls event g) t c
unfolding IsLive
merge_clusters-IsLive tenant s ls event g t c e (k, h, l) =
    rw (merge_clusters-clusters tenant s ls event g t c, e, h) (k, refl, l)

both-true : (a b : Bool) → (a && b) ≡ true → (a ≡ true) × (b ≡ true)
both-true true true h = (refl, refl)
both-true true false h = absurd (ground arith)
both-true false b h = absurd (ground arith)

some-injective {ℓ} : {A : Type ℓ} {a b : A} → ◌≡◌ {A = Option A} (some a) (some b) → a ≡ b
some-injective h = cc

and-outside :
    (b : Bool) (s c : ℕ) (cs : List ℕ)
    → (b && is_in c cs) ≡ false
    → (b && is_in c (without s cs)) ≡ false
and-outside false s c cs h = refl
and-outside true s c cs h = without-outside s c cs h

module _ (env : Env) (tenant : ℕ) (event : String) (ids : List ℕ) (g : Graph)
    (sound : IsSound g) where
  candidate-IsLive :
      (c : ℕ) → is_in c (clusters_for (g.members tenant) ids) ≡ true → IsLive g tenant c
  unfolding IsSound
  candidate-IsLive c h =
      let (n, e) = is_in-clusters_for (g.members tenant) c ids h in sound tenant n c e

  -- A cluster that the event does not touch stays live.
  chosen-IsLive :
      (out : Graph × Resolved)
      → Choice env tenant event (clusters_for (g.members tenant) ids) g out
      → (t c : ℕ) → (eqb t tenant && is_in c (clusters_for (g.members tenant) ids)) ≡ false
      → IsLive g t c
      → IsLive out.0 t c
  unfolding only_cluster merge_into
  chosen-IsLive out (created p q) t c e l =
      rw q (create_cluster-IsLive tenant env.new_cluster env.new_canonical env.now g t c l)
  chosen-IsLive out (single d k p h q) t c e l = rw q l
  chosen-IsLive out (merged s k p q) t c e l = rw q (
      merge_clusters-IsLive tenant s (without s (clusters_for (g.members tenant) ids)) event g t c
        (and-outside (eqb t tenant) s c (clusters_for (g.members tenant) ids) e) l)

  -- The result cluster is live.
  result-IsLive :
      (out : Graph × Resolved)
      → Choice env tenant event (clusters_for (g.members tenant) ids) g out
      → IsLive out.0 tenant out.1.cluster_id
  unfolding only_cluster merge_into
  result-IsLive out (created p q) =
      rw q (create_cluster-new tenant env.new_cluster env.new_canonical env.now g)
  result-IsLive out (single d k p h q) =
      rw q (candidate-IsLive d (rw p (ground (arith, eqb_refl d))))
  result-IsLive out (merged s k p q) = rw q (
      merge_clusters-IsLive tenant s (without s (clusters_for (g.members tenant) ids)) event g
        tenant s (rw (eqb_refl tenant) (without_self s (clusters_for (g.members tenant) ids)))
        (candidate-IsLive s
          (pick_survivor-Chosen (g.clusters tenant) (clusters_for (g.members tenant) ids) (s, k)
            p).0))

  link_nodes-clusters :
      (out : Graph × Resolved)
      → link_nodes env tenant event ids g ≡ ok out
      → (chosen : Graph × Resolved) × Choice env tenant event
          (clusters_for (g.members tenant) ids)
          g
          chosen
        × (out.0.clusters ≡ chosen.0.clusters)
        × (out.1 ≡ chosen.1)
  unfolding link_nodes
  link_nodes-clusters out h =
      let (chosen, c, e) =
        >>=-eq-ok (choose_cluster env tenant event (clusters_for (g.members tenant) ids) g) _ h in
      (
        chosen,
        choose_cluster-Choice env tenant event (clusters_for (g.members tenant) ids) g chosen c,
        ap (λ (o : Graph × Resolved). o.0.clusters) (sym (ok-injective e))
            ∙ add_members-clusters tenant chosen.1.cluster_id ids chosen.0,
        ap (λ (o : Graph × Resolved). o.1) (sym (ok-injective e)),
      )

  pub link_nodes-IsLive :
      (out : Graph × Resolved)
      → link_nodes env tenant event ids g ≡ ok out
      → IsLive out.0 tenant out.1.cluster_id
  link_nodes-IsLive out h =
      let (chosen, ch, e, f) = link_nodes-clusters out h in
      IsLive-same chosen.0 out.0 tenant out.1.cluster_id
        (ap (λ (m : ℕ → ℕ → Option Cluster). m tenant out.1.cluster_id) e)
        (subst (IsLive chosen.0 tenant) (ap (λ (r : Resolved). r.cluster_id) (sym f))
          (result-IsLive chosen ch))

  untouched :
      (t n c : ℕ)
      → g.members t n ≡ some c
      → (eqb t tenant && linked tenant ids g n) ≡ false
      → (eqb t tenant && is_in c (clusters_for (g.members tenant) ids)) ≡ false
  unfolding linked candidates
  untouched t n c m l = elim (Bool-cases (eqb t tenant)) [
    | inr k ↦ rw k refl
    | inl k ↦
        let m' : g.members tenant n ≡ some c =
          subst (λ (x : ℕ). g.members x n ≡ some c) (eqb→eq t tenant k) m in
        ground (arith, k, m', l)
  ]

  pub link_nodes-IsSound :
      (out : Graph × Resolved) → link_nodes env tenant event ids g ≡ ok out → IsSound out.0
  unfolding IsSound linked candidates
  link_nodes-IsSound out h t n c m =
      let (chosen, ch, e, f) = link_nodes-clusters out h in
      let m' = sym (link_nodes-members env tenant event ids g out h t n) ∙ m in
      elim (Bool-cases (eqb t tenant && linked tenant ids g n)) [
        | inl l ↦
            let (a, b) = both-true (eqb t tenant) (linked tenant ids g n) l in
            let q : out.1.cluster_id ≡ c = some-injective (rw l at m') in
            subst (IsLive out.0 t) q (rw (eqb→eq t tenant a) (link_nodes-IsLive out h))
        | inr l ↦
            let m'' : g.members t n ≡ some c = rw l at m' in
            IsLive-same chosen.0 out.0 t c (ap (λ (x : ℕ → ℕ → Option Cluster). x t c) e)
              (chosen-IsLive chosen ch t c (untouched t n c m'' l) (sound t n c m''))
      ]

  -- The clusters are there, so the code finds one.
  choose_cluster-ok :
      (cs : List ℕ)
      → ((c : ℕ) → is_in c cs ≡ true → IsLive g tenant c)
      → (out : Graph × Resolved) × (choose_cluster env tenant event cs g ≡ ok out)
  unfolding choose_cluster IsLive
  choose_cluster-ok [] live =
      ((create_cluster tenant env.new_cluster env.new_canonical env.now g, of_new env), refl)
  choose_cluster-ok (c ∷ []) live =
      let (k, h, l) = live c (ground (arith, eqb_refl c)) in
      (only_cluster env k c g, rw (h, choose_cluster) refl)
  choose_cluster-ok (c ∷ c' ∷ cs) live =
      let (k, h, l) = live c (ground (arith, eqb_refl c)) in
      let (s, p) = pick_survivor-some (g.clusters tenant) c (c' ∷ cs) h in
      (merge_into env tenant event (c ∷ c' ∷ cs) g s, rw (p, choose_cluster) refl)

  pub link_nodes-ok : (out : Graph × Resolved) × (link_nodes env tenant event ids g ≡ ok out)
  unfolding link_nodes
  link_nodes-ok =
      let (chosen, h) = choose_cluster-ok (clusters_for (g.members tenant) ids) candidate-IsLive in
      ((add_members tenant chosen.1.cluster_id ids chosen.0, chosen.1), rw h refl)
