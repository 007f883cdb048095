-- ===== src/Identity/Resolve/Choice.antt =====
-- internal/identity/service.go: the three ways in which `resolveTx` finds the cluster.
use osscdp.Prelude.{
  ℕ, String, false, some, List, [], ◌∷◌, ok, ◌≡◌, refl, sym, arith, Option-cases, ok-injective, inl,
  inr,
}
use osscdp.Identity.Graph.{Cluster, Graph, pick_survivor, create_cluster}
use osscdp.Identity.Resolve.{Env, Resolved, choose_cluster, only_cluster, merge_into}

module _ (env : Env) where
  abbrev pub of_new : Resolved
  of_new = record {
    cluster_id = env.new_cluster;
    canonical_user_id = env.new_canonical;
    merge_occurred = false;
    merged_canonicals = [];
  }

  pub data Choice (tenant : ℕ) (event : String) (cs : List ℕ) (g : Graph) (out : Graph × Resolved)
      : Type 0 where
    created :
        cs ≡ []
        → out ≡ (create_cluster tenant env.new_cluster env.new_canonical env.now g, of_new)
        → Choice tenant event cs g out
    single :
        (c : ℕ) (k : Cluster)
        → cs ≡ c ∷ []
        → g.clusters tenant c ≡ some k
        → out ≡ only_cluster env k c g
        → Choice tenant event cs g out
    merged :
        (s : ℕ) (k : Cluster)
        → pick_survivor (g.clusters tenant) cs ≡ some (s, k)
        → out ≡ merge_into env tenant event cs g (s, k)
        → Choice tenant event cs g out

  pub choose_cluster-Choice :
      (tenant : ℕ) (event : String) (cs : List ℕ) (g : Graph) (out : Graph × Resolved)
      → choose_cluster env tenant event cs g ≡ ok out
      → Choice tenant event cs g out
  unfolding choose_cluster
  choose_cluster-Choice tenant event [] g out h = created refl (sym (ok-injective h))
  choose_cluster-Choice tenant event (c ∷ []) g out h = elim (Option-cases (g.clusters tenant c)) [
    | inl e ↦ absurd (ground arith)
    | inr (k, e) ↦ single c k refl e (ground arith)
  ]
  choose_cluster-Choice tenant event (c ∷ c' ∷ cs) g out h =
      elim (Option-cases (pick_survivor (g.clusters tenant) (c ∷ c' ∷ cs))) [
        | inl e ↦ absurd (ground arith)
        | inr ((s, k), e) ↦ merged s k e (ground arith)
      ]

  pub choose_cluster-one :
      (tenant : ℕ) (event : String) (c : ℕ) (g : Graph) (out : Graph × Resolved)
      → choose_cluster env tenant event (c ∷ []) g ≡ ok out
      → (k : Cluster) × (out ≡ only_cluster env k c g)
  unfolding choose_cluster
  choose_cluster-one tenant event c g out h = elim (Option-cases (g.clusters tenant c)) [
    | inl e ↦ absurd (ground arith)
    | inr (k, e) ↦ (k, ground arith)
  ]
