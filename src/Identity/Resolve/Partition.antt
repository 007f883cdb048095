-- ===== src/Identity/Resolve/Partition.antt =====
-- internal/identity/service.go: the partition of the nodes into persons. A resolution joins the
-- classes of the event's nodes, and does nothing else.
use osscdp.Prelude.{
  ℕ, zero, String, Bool, true, false, ◌||◌, ◌&&◌, Option, none, some, List, ok, eqb, eqb→eq,
  eqb_refl, ◌≡◌, ◌≢◌, refl, sym, ap, ◌∙◌, ◌⊎◌, inl, inr, subst, arith, Bool-cases, >>=-eq-ok,
  ok-injective,
}
use osscdp.Events.Envelope.{Envelope}
use osscdp.Identity.Identifier.{Identifier, extract_identifiers}
use osscdp.Identity.Graph.{Node, Graph, is_in, clusters_for}
use osscdp.Identity.Graph.Clusters.{lies_in, lies_in-clusters_for, pick_survivor-Chosen}
use osscdp.Identity.Resolve.{
  Env, Resolved, resolve, choose_cluster, link_nodes, only_cluster, merge_into,
}
use osscdp.Identity.Resolve.Choice.{Choice, created, single, merged, choose_cluster-Choice}
use osscdp.Identity.Resolve.Nodes.{
  Located, nowhere, here, Located-nil, Located-cons, upsert_nodes-Located,
}
use osscdp.Identity.Resolve.Event.{with_nodes, link_nodes-nodes}
use osscdp.Identity.Resolve.Again.{resolve-parts}
use osscdp.Identity.Resolve.Joined.{candidates, linked, link_nodes-members}

-- Whether two memberships are of one cluster.
abbrev pub same_cluster : Option ℕ → Option ℕ → Bool
same_cluster none p = false
same_cluster (some c) none = false
same_cluster (some c) (some d) = eqb c d

-- Whether two nodes of a tenant are one person.
pub together : Graph → ℕ → ℕ → ℕ → Bool
together g t a b = same_cluster (g.members t a) (g.members t b)

apart :
    (cs : List ℕ) (o p : Option ℕ)
    → (o ≡ none) ⊎ (lies_in cs o ≡ true)
    → lies_in cs p ≡ false
    → (same_cluster o p ≡ false) × (same_cluster p o ≡ false)
apart cs none none h k = (refl, refl)
apart cs none (some d) h k = (refl, refl)
apart cs (some c) none h k = (refl, refl)
apart cs (some c) (some d) (inl e) k = absurd (ground arith)
apart cs (some c) (some d) (inr e) k = elim (Bool-cases (eqb c d)) [
  | inl q ↦
      absurd (
        let r : is_in d cs ≡ true = subst (λ x. is_in x cs ≡ true) (eqb→eq c d q) e in ground arith)
  | inr q ↦ (q, ground arith)
]

apart-fresh :
    (s : ℕ) (p : Option ℕ)
    → p ≢ some s
    → (same_cluster (some s) p ≡ false) × (same_cluster p (some s) ≡ false)
apart-fresh s none h = (refl, refl)
apart-fresh s (some d) h = elim (Bool-cases (eqb s d)) [
  | inl q ↦ absurd (h (ap some (sym (eqb→eq s d q))))
  | inr q ↦ (q, ground arith)
]

-- The result cluster is a candidate, or the new one.
cluster_id-cases :
    (env : Env) (tenant : ℕ) (event : String) (cs : List ℕ) (g : Graph) (out : Graph × Resolved)
    → Choice env tenant event cs g out
    → (is_in out.1.cluster_id cs ≡ true) ⊎ (out.1.cluster_id ≡ env.new_cluster)
unfolding only_cluster merge_into
cluster_id-cases env tenant event cs g out (created p q) = inr (rw q refl)
cluster_id-cases env tenant event cs g out (single c k p e q) =
    inl (rw (p, q) (ground (arith, eqb_refl c)))
cluster_id-cases env tenant event cs g out (merged s k e q) =
    inl (rw q (pick_survivor-Chosen (g.clusters tenant) cs (s, k) e).0)

module _ (env : Env) (tenant : ℕ) (event : String) (ids : List ℕ) (g : Graph)
    (fresh : (n : ℕ) → g.members tenant n ≢ some env.new_cluster) where
  linked-cases :
      (n : ℕ)
      → linked tenant ids g n ≡ true
      → (g.members tenant n ≡ none)
        ⊎ (lies_in (candidates tenant ids g) (g.members tenant n) ≡ true)
  unfolding linked candidates
  linked-cases n h = elim (Bool-cases (is_in n ids)) [
    | inl e ↦ lies_in-clusters_for (g.members tenant) n ids e
    | inr e ↦ inr (ground arith)
  ]

  unlinked-lies_in :
      (n : ℕ)
      → linked tenant ids g n ≡ false
      → lies_in (candidates tenant ids g) (g.members tenant n) ≡ false
  unfolding linked
  unlinked-lies_in n h = ground arith

  -- The result cluster holds no node that the event does not link.
  unlinked-apart :
      (out : Graph × Resolved)
      → link_nodes env tenant event ids g ≡ ok out
      → (n : ℕ) → linked tenant ids g n ≡ false
      → (same_cluster (some out.1.cluster_id) (g.members tenant n) ≡ false)
        × (same_cluster (g.members tenant n) (some out.1.cluster_id) ≡ false)
  unfolding link_nodes candidates
  unlinked-apart out h n u =
      let cs = clusters_for (g.members tenant) ids in
      let (chosen, c, e) = >>=-eq-ok (choose_cluster env tenant event cs g) _ h in
      rw (sym (ok-injective e))
        (elim (cluster_id-cases env tenant event cs g chosen
          (choose_cluster-Choice env tenant event cs g chosen c)) [
            | inl i ↦
                apart cs (some chosen.1.cluster_id) (g.members tenant n) (inr i)
                  (unlinked-lies_in n u)
            | inr q ↦ rw q (apart-fresh env.new_cluster (g.members tenant n) (fresh n))
          ])

  -- The part of the resolution behind the nodes.
  pub link_nodes-partition :
      (out : Graph × Resolved)
      → link_nodes env tenant event ids g ≡ ok out
      → (a b : ℕ)
      → together out.0 tenant a b
        ≡ (together g tenant a b || (linked tenant ids g a && linked tenant ids g b))
  unfolding together
  link_nodes-partition out h a b =
      rw
        (
          link_nodes-members env tenant event ids g out h tenant a,
          link_nodes-members env tenant event ids g out h tenant b,
          eqb_refl tenant,
        )
        (elim (Bool-cases (linked tenant ids g a)) [
          | inl la ↦ elim (Bool-cases (linked tenant ids g b)) [
            | inl lb ↦ rw (la, lb) (ground (arith, eqb_refl out.1.cluster_id))
            | inr lb ↦
                rw
                  (
                    la,
                    lb,
                    (unlinked-apart out h b lb).0,
                    (apart (candidates tenant ids g) (g.members tenant a) (g.members tenant b)
                        (linked-cases a la) (unlinked-lies_in b lb)).0,
                  )
                  refl
          ]
          | inr la ↦ elim (Bool-cases (linked tenant ids g b)) [
            | inl lb ↦
                rw
                  (
                    la,
                    lb,
                    (unlinked-apart out h a la).1,
                    (apart (candidates tenant ids g) (g.members tenant b) (g.members tenant a)
                        (linked-cases b lb) (unlinked-lies_in a la)).1,
                  )
                  refl
            | inr lb ↦ rw (la, lb) (ground arith)
          ]
        ])

some-injective : {a b : ℕ} → ◌≡◌ {A = Option ℕ} (some a) (some b) → a ≡ b
some-injective h = cc

Located-unique :
    (env : Env) (tenant : ℕ) (nodes : List Node) {ids : List Identifier} {ns : List ℕ} (ms : List ℕ)
    → Located env tenant nodes ids ns
    → Located env tenant nodes ids ms
    → ns ≡ ms
Located-unique env tenant nodes ms nowhere l = sym (Located-nil env tenant nodes ms l)
Located-unique env tenant nodes ms (here a n k l) m =
    let (n', ms', e, k', l') = Located-cons env tenant nodes ms m in
    rw (e, some-injective (sym k ∙ k'), Located-unique env tenant nodes ms' l l') refl

-- In one tenant: after a resolution that succeeds two nodes are one person exactly when they were
-- before or the event links both of them, where linked means to be the node of an identifier of the
-- event or to lie in the cluster of one; the id of a new cluster is in no membership before.
pub resolve-partition :
    (env : Env) (e : Envelope) (g g' : Graph) (res : Resolved) (ns : List ℕ)
    → ((n : ℕ) → g.members e.tenant_id n ≢ some env.new_cluster)
    → resolve env e g ≡ ok (g', some res)
    → Located env e.tenant_id g'.nodes (extract_identifiers e) ns
    → (a b : ℕ)
    → together g' e.tenant_id a b
      ≡ (together g e.tenant_id a b || (linked e.tenant_id ns g a && linked e.tenant_id ns g b))
unfolding together linked candidates
resolve-partition env e g g' res ns fresh h l a b =
    let (up, u, k) = resolve-parts env e g g' res h in
    let l' : Located env e.tenant_id g'.nodes (extract_identifiers e) up.1 =
      rw (link_nodes-nodes env e up.1 (with_nodes up.0 g) (g', res) k)
        (upsert_nodes-Located env e.tenant_id zero (extract_identifiers e) g.nodes up u) in
    rw (Located-unique env e.tenant_id g'.nodes ns l' l) at (
      link_nodes-partition env e.tenant_id e.event_id up.1 (with_nodes up.0 g) fresh (g', res) k a
        b)
