-- ===== src/Identity/Resolve/Again.antt =====
-- internal/identity/service.go: Resolve as a whole, and its replay on the same event.
use osscdp.Prelude.{
  All, ℕ, zero, false, Option, none, some, List, [], ◌∷◌, ok, eqb, eqb→eq, ◌≡◌, refl, sym, ap, ◌∙◌,
  subst, inl, inr, arith, >>=-eq-ok, ok-injective, Bool-cases,
}
use osscdp.Events.Envelope.{Envelope}
use osscdp.Identity.Identifier.{Identifier, extract_identifiers}
use osscdp.Identity.Graph.{Node, Cluster, Graph, is_in, add_members}
use osscdp.Identity.Graph.Updates.{add_members-members, add_members-clusters}
use osscdp.Identity.Graph.Clusters.{All-is_in, clusters_for-same}
use osscdp.Identity.Resolve.{
  Env, Resolved, upsert_nodes, link_nodes, choose_cluster, resolve_tx, resolve_ids, resolve,
  only_cluster,
}
use osscdp.Identity.Resolve.Choice.{choose_cluster-one}
use osscdp.Identity.Resolve.Nodes.{
  Located, nowhere, here, node_of-same, Enciphers, upsert_nodes-again,
}
use osscdp.Identity.Resolve.Active.{IsLive, IsSound}
use osscdp.Identity.Resolve.Event.{
  Attached, with_nodes, resolve_tx-parts, resolve_tx-Attached, resolve_tx-IsSound, resolve_tx-ok,
}

some-injective : {a b : Resolved} → some a ≡ some b → a ≡ b
some-injective h = cc

module _ (env : Env) (e : Envelope) where
  resolve_ids-lem :
      (ids : List Identifier) (g g' : Graph) (res : Resolved)
      → resolve_ids env e ids g ≡ ok (g', some res)
      → resolve_tx env e ids g ≡ ok (g', res)
  unfolding resolve_ids
  resolve_ids-lem [] g g' res h = absurd (ground arith)
  resolve_ids-lem (a ∷ ids) g g' res h =
      let (out, c, q) = >>=-eq-ok (resolve_tx env e (a ∷ ids) g) _ h in
      let q' : (out.0, some out.1) ≡ (g', some res) = ok-injective q in
      let g_path : out.0 ≡ g' = ap (λ (o : Graph × Option Resolved). o.0) q' in
      let res_path : out.1 ≡ res = some-injective (ap (λ (o : Graph × Option Resolved). o.1) q') in
      c ∙ ap ok (λ i. (g_path i, res_path i))

  resolve_ids-none :
      (ids : List Identifier) (g g' : Graph)
      → resolve_ids env e ids g ≡ ok (g', none)
      → (ids ≡ []) × (g' ≡ g)
  unfolding resolve_ids
  resolve_ids-none [] g g' h =
      (refl, ap (λ (o : Graph × Option Resolved). o.0) (sym (ok-injective h)))
  resolve_ids-none (a ∷ ids) g g' h =
      let (out, c, q) = >>=-eq-ok (resolve_tx env e (a ∷ ids) g) _ h in absurd (ground arith)

  resolve_ids-ok :
      (ids : List Identifier) (g : Graph)
      → IsSound g
      → Enciphers env
      → (out : Graph × Option Resolved) × (resolve_ids env e ids g ≡ ok out)
  unfolding resolve_ids
  resolve_ids-ok [] g s enc = ((g, none), refl)
  resolve_ids-ok (a ∷ ids) g s enc =
      let (out, h) = resolve_tx-ok env e enc (a ∷ ids) g s in ((out.0, some out.1), rw h refl)

  pub resolve-none : (g g' : Graph) → resolve env e g ≡ ok (g', none) → extract_identifiers e ≡ []
  unfolding resolve
  resolve-none g g' h = (resolve_ids-none (extract_identifiers e) g g' h).0

  pub resolve-parts :
      (g g' : Graph) (res : Resolved)
      → resolve env e g ≡ ok (g', some res)
      → (up : List Node × List ℕ) × (upsert_nodes env e.tenant_id zero
            (extract_identifiers e)
            g.nodes
          ≡ ok up)
        × (link_nodes env e.tenant_id e.event_id up.1 (with_nodes up.0 g) ≡ ok (g', res))
  unfolding resolve
  resolve-parts g g' res h =
      resolve_tx-parts env e (extract_identifiers e) g (g', res)
        (resolve_ids-lem (extract_identifiers e) g g' res h)

  -- A resolution that succeeds leaves every identifier of the event with a node, and all those nodes
  -- in the cluster that it returns.
  pub resolve-Attached :
      (g g' : Graph) (res : Resolved)
      → resolve env e g ≡ ok (g', some res)
      → Attached env e.tenant_id (extract_identifiers e) g' res.cluster_id
  unfolding resolve
  resolve-Attached g g' res h =
      resolve_tx-Attached env e (extract_identifiers e) g (g', res)
        (resolve_ids-lem (extract_identifiers e) g g' res h)

  -- In a graph where each membership names a cluster that exists and is not merged away, so it is
  -- after a resolution that succeeds, and the cluster that is returned exists and is not merged away.
  pub resolve-IsSound :
      (g g' : Graph) (res : Option Resolved)
      → IsSound g
      → resolve env e g ≡ ok (g', res)
      → IsSound g' × ((r : Resolved) → res ≡ some r → IsLive g' e.tenant_id r.cluster_id)
  unfolding resolve
  resolve-IsSound g g' none s h =
      (rw (resolve_ids-none (extract_identifiers e) g g' h).1 s, λ r k. absurd (ground arith))
  resolve-IsSound g g' (some res) s h =
      let both =
        resolve_tx-IsSound env e (extract_identifiers e) g (g', res) s
          (resolve_ids-lem (extract_identifiers e) g g' res h) in
      (both.0, λ r k. subst (λ x. IsLive g' e.tenant_id x.cluster_id) (some-injective k) both.1)

  -- In such a graph a resolution succeeds unless a value fails to encrypt.
  pub resolve-ok :
      (g : Graph)
      → IsSound g
      → Enciphers env
      → (out : Graph × Option Resolved) × (resolve env e g ≡ ok out)
  unfolding resolve
  resolve-ok g s enc = resolve_ids-ok (extract_identifiers e) g s enc

module _ (env env' : Env) (e : Envelope) (same_hash : env'.value_hash ≡ env.value_hash) where
  Located-same :
      (nodes : List Node) {ids : List Identifier} {ns : List ℕ}
      → Located env e.tenant_id nodes ids ns
      → Located env' e.tenant_id nodes ids ns
  Located-same nodes nowhere = nowhere
  Located-same nodes (here a n k l) =
      here a n (node_of-same env env' e.tenant_id a nodes same_hash ∙ k) (Located-same nodes l)

  -- The second resolution is the one over a single cluster.
  link_nodes-again :
      (n : ℕ) (ns : List ℕ) (c : ℕ) (g : Graph) (out : Graph × Resolved)
      → All (λ n. g.members e.tenant_id n ≡ some c) (n ∷ ns)
      → link_nodes env' e.tenant_id e.event_id (n ∷ ns) g ≡ ok out
      → (k : Cluster) × (out ≡ (add_members e.tenant_id c (n ∷ ns) g, (only_cluster env' k c g).1))
  unfolding link_nodes only_cluster
  link_nodes-again n ns c g out h l =
      let l' = rw (clusters_for-same (g.members e.tenant_id) c n ns h) at l in
      let (chosen, q, p) = >>=-eq-ok (choose_cluster env' e.tenant_id e.event_id (c ∷ []) g) _ l' in
      let (k, r) = choose_cluster-one env' e.tenant_id e.event_id c g chosen q in
      (
        k,
        sym (ok-injective p)
            ∙ ap
                (λ (o : Graph × Resolved).
                  (add_members e.tenant_id o.1.cluster_id (n ∷ ns) o.0, o.1))
                r,
      )

  add_members-again :
      (ns : List ℕ) (c : ℕ) (g : Graph)
      → All (λ n. g.members e.tenant_id n ≡ some c) ns
      → (t n : ℕ) → (add_members e.tenant_id c ns g).members t n ≡ g.members t n
  add_members-again ns c g h t n =
      rw (add_members-members e.tenant_id c ns g t n) (elim (Bool-cases (eqb t e.tenant_id)) [
        | inr k ↦ rw k refl
        | inl k ↦ elim (Bool-cases (is_in n ns)) [
          | inr i ↦ rw (k, i) refl
          | inl i ↦
              let m : g.members t n ≡ some c =
                subst (λ (x : ℕ). g.members x n ≡ some c) (sym (eqb→eq t e.tenant_id k))
                  (All-is_in _ n ns h i) in
              rw (k, i, m) refl
        ]
      ])

  -- A replay finds all nodes in one cluster.
  abbrev pub Replayed : (g : Graph) (c : ℕ) (out : Graph × Resolved) → Type 0
  Replayed g c out =
      (out.1.cluster_id ≡ c)
      × (out.1.merge_occurred ≡ false)
      × (out.0.clusters ≡ g.clusters)
      × ((t n : ℕ) → out.0.members t n ≡ g.members t n)

  replay_nodes :
      (nodes : List Node) (c : ℕ) (g : Graph) (out : Graph × Resolved) {a : Identifier}
      {ids : List Identifier} {ns : List ℕ}
      → Located env e.tenant_id g.nodes (a ∷ ids) ns
      → All (λ n. g.members e.tenant_id n ≡ some c) ns
      → link_nodes env' e.tenant_id e.event_id ns (with_nodes nodes g) ≡ ok out
      → Replayed g c out
  unfolding only_cluster
  replay_nodes nodes c g out (here a n {ids} {ns} k l) h q =
      let (k, p) = link_nodes-again n ns c (with_nodes nodes g) out h q in
      rw p (
        refl,
        refl,
        add_members-clusters e.tenant_id c (n ∷ ns) (with_nodes nodes g),
        λ t m. add_members-again (n ∷ ns) c (with_nodes nodes g) h t m,
      )

  replay_ids :
      (ids : List Identifier) (c : ℕ) (g g' : Graph) (res : Resolved)
      → Attached env e.tenant_id ids g c
      → resolve_ids env' e ids g ≡ ok (g', some res)
      → Replayed g c (g', res)
  unfolding Attached resolve_ids
  replay_ids [] c g g' res h q = absurd (ground arith)
  replay_ids (a ∷ ids) c g g' res (ns, l, h) q =
      let (up, u, k) =
        resolve_tx-parts env' e (a ∷ ids) g (g', res)
          (resolve_ids-lem env' e (a ∷ ids) g g' res q) in
      let same = upsert_nodes-again env' e.tenant_id zero g.nodes up (Located-same g.nodes l) u in
      replay_nodes up.0 c g (g', res) l h (rw same at k)

  -- The same event again, after a first resolution that succeeded and with no other in between: if the
  -- second resolution succeeds, it returns the same cluster, it merges nothing, and every cluster and
  -- every membership is as before. The two runs share the hash, and nothing else is assumed of them.
  pub resolve-again :
      (g g' g'' : Graph) (res res' : Resolved)
      → resolve env e g ≡ ok (g', some res)
      → resolve env' e g' ≡ ok (g'', some res')
      → (res'.cluster_id ≡ res.cluster_id)
        × (res'.merge_occurred ≡ false)
        × (g''.clusters ≡ g'.clusters)
        × ((t n : ℕ) → g''.members t n ≡ g'.members t n)
  unfolding resolve
  resolve-again g g' g'' res res' h h' =
      replay_ids (extract_identifiers e) res.cluster_id g' g'' res'
        (resolve-Attached env e g g' res h) h'
