-- ===== src/Identity/Graph/Clusters.antt =====
-- internal/identity/repo.go: which clusters a set of nodes lies in, and what a merge does to the
-- membership of a node.
use osscdp.Prelude.{
  All, ℕ, Bool, true, false, Option, none, some, List, [], ◌∷◌, eqb, eqb→eq, eqb_refl,
  if◌then◌else◌, ◌≡◌, refl, sym, ap, subst, ◌∙◌, ◌⊎◌, inl, inr, arith, Bool-cases, Option-cases,
}
use osscdp.Identity.Graph.{
  Cluster, is_in, add_distinct, clusters_for, pick_survivor, older, older_of, is_older, without,
  moved,
}

-- Whether a node with this membership lies in one of the clusters.
abbrev pub lies_in : List ℕ → Option ℕ → Bool
lies_in cs none = false
lies_in cs (some c) = is_in c cs

-- The membership once the clusters `cs` have become `s`.
abbrev pub settled : List ℕ → ℕ → Option ℕ → Option ℕ
settled cs s o = if lies_in cs o then some s else o

pub is_in-head : (c : ℕ) (cs : List ℕ) → is_in c (c ∷ cs) ≡ true
is_in-head c cs = ground (arith, eqb_refl c)

pub is_in-tail : (c d : ℕ) (cs : List ℕ) → is_in c cs ≡ true → is_in c (d ∷ cs) ≡ true
is_in-tail c d cs h = ground arith

is_in-add_distinct :
    (o : Option ℕ) (c : ℕ) (cs : List ℕ) → is_in c cs ≡ true → is_in c (add_distinct o cs) ≡ true
is_in-add_distinct none c cs h = h
is_in-add_distinct (some d) c cs h = elim (Bool-cases (is_in d cs)) [
  | inl e ↦ rw e h
  | inr e ↦ rw e (is_in-tail c d cs h)
]

lies_in-add_distinct :
    (o : Option ℕ) (cs : List ℕ) → (o ≡ none) ⊎ (lies_in (add_distinct o cs) o ≡ true)
lies_in-add_distinct none cs = inl refl
lies_in-add_distinct (some d) cs = elim (Bool-cases (is_in d cs)) [
  | inl e ↦ inr (rw e e)
  | inr e ↦ inr (rw e (is_in-head d cs))
]

lies_in-more :
    (o p : Option ℕ) (cs : List ℕ)
    → (o ≡ none) ⊎ (lies_in cs o ≡ true)
    → (o ≡ none) ⊎ (lies_in (add_distinct p cs) o ≡ true)
lies_in-more none p cs h = inl refl
lies_in-more (some c) p cs (inl h) = absurd (ground arith)
lies_in-more (some c) p cs (inr h) = inr (is_in-add_distinct p c cs h)

-- The cluster of each of the nodes is listed.
pub lies_in-clusters_for :
    (members : ℕ → Option ℕ) (n : ℕ) (ns : List ℕ)
    → is_in n ns ≡ true
    → (members n ≡ none) ⊎ (lies_in (clusters_for members ns) (members n) ≡ true)
unfolding clusters_for
lies_in-clusters_for members n [] h = absurd (ground arith)
lies_in-clusters_for members n (m ∷ ns) h = elim (Bool-cases (eqb m n)) [
  | inl e ↦ rw (sym (eqb→eq m n e)) (lies_in-add_distinct (members m) (clusters_for members ns))
  | inr e ↦
      lies_in-more (members n) (members m) (clusters_for members ns)
        (lies_in-clusters_for members n ns (ground arith))
]

is_in-distinct :
    (o : Option ℕ) (c : ℕ) (cs : List ℕ)
    → is_in c (add_distinct o cs) ≡ true
    → (o ≡ some c) ⊎ (is_in c cs ≡ true)
is_in-distinct none c cs h = inr h
is_in-distinct (some d) c cs h = elim (Bool-cases (eqb d c)) [
  | inl e ↦ inl (ap some (eqb→eq d c e))
  | inr e ↦ inr (ground arith)
]

-- A listed cluster has a member among the nodes.
pub is_in-clusters_for :
    (members : ℕ → Option ℕ) (c : ℕ) (ns : List ℕ)
    → is_in c (clusters_for members ns) ≡ true
    → (n : ℕ) × (members n ≡ some c)
unfolding clusters_for
is_in-clusters_for members c [] h = absurd (ground arith)
is_in-clusters_for members c (m ∷ ns) h =
    elim (is_in-distinct (members m) c (clusters_for members ns) h) [
      | inl e ↦ (m, e)
      | inr k ↦ is_in-clusters_for members c ns k
    ]

pub without_self : (s : ℕ) (cs : List ℕ) → is_in s (without s cs) ≡ false
unfolding without
without_self s [] = refl
without_self s (c ∷ cs) = ground (arith, without_self s cs)

pub is_in-without : (s c : ℕ) (cs : List ℕ) → eqb c s ≡ false → is_in c (without s cs) ≡ is_in c cs
unfolding without
is_in-without s c [] h = refl
is_in-without s c (d ∷ cs) h = ground (arith, is_in-without s c cs h)

-- What a merge into `s` does to the membership of one node.
pub moved-settled :
    (s : ℕ) (cs : List ℕ) (o : Option ℕ)
    → is_in s cs ≡ true
    → moved (without s cs) s o ≡ settled cs s o
moved-settled s cs none h = refl
moved-settled s cs (some c) h = elim (Bool-cases (eqb c s)) [
  | inl e ↦ rw (eqb→eq c s e, without_self s cs, h) refl
  | inr e ↦ rw (is_in-without s c cs e) refl
]

older_of-fst :
    (i : ℕ) (a : Cluster) (best : Option (ℕ × Cluster)) (out : ℕ × Cluster)
    → older_of i a best ≡ some out
    → (out ≡ (i, a)) ⊎ (best ≡ some out)
older_of-fst i a none out h = inl (ground arith)
older_of-fst i a (some (j, b)) out h = elim (Bool-cases (is_older j b i a)) [
  | inl e ↦ inr (ground arith)
  | inr e ↦ inl (ground arith)
]

older_of-some :
    (i : ℕ) (a : Cluster) (best : Option (ℕ × Cluster))
    → (out : ℕ × Cluster) × (older_of i a best ≡ some out)
older_of-some i a none = ((i, a), refl)
older_of-some i a (some (j, b)) = elim (Bool-cases (is_older j b i a)) [
  | inl e ↦ ((j, b), rw e refl)
  | inr e ↦ ((i, a), rw e refl)
]

older-cases :
    (clusters : ℕ → Option Cluster) (c : ℕ) (best : Option (ℕ × Cluster)) (out : ℕ × Cluster)
    → older c (clusters c) best ≡ some out
    → ((clusters c ≡ some out.1) × (out.0 ≡ c)) ⊎ (best ≡ some out)
older-cases clusters c best out h = elim (Option-cases (clusters c)) [
  | inl e ↦ inr (rw e at h)
  | inr (k, e) ↦ elim (older_of-fst c k best out (rw e at h)) [
    | inl p ↦ inl (e ∙ ap (λ (o : ℕ × Cluster). some o.1) (sym p), ap (λ (o : ℕ × Cluster). o.0) p)
    | inr q ↦ inr q
  ]
]

-- The survivor is one of the clusters, and its row is read.
pub pick_survivor-Chosen :
    (clusters : ℕ → Option Cluster) (cs : List ℕ) (out : ℕ × Cluster)
    → pick_survivor clusters cs ≡ some out
    → (is_in out.0 cs ≡ true) × (clusters out.0 ≡ some out.1)
unfolding pick_survivor
pick_survivor-Chosen clusters [] out h = absurd (ground arith)
pick_survivor-Chosen clusters (c ∷ cs) out h =
    elim (older-cases clusters c (pick_survivor clusters cs) out h) [
      | inl (e, p) ↦ (
        subst (λ d. is_in d (c ∷ cs) ≡ true) (sym p) (is_in-head c cs),
        subst (λ d. clusters d ≡ some out.1) (sym p) e,
      )
      | inr q ↦ let (i, e) = pick_survivor-Chosen clusters cs out q in (is_in-tail out.0 c cs i, e)
    ]

-- There is a survivor as soon as the first cluster exists.
pub pick_survivor-some :
    (clusters : ℕ → Option Cluster) (c : ℕ) (cs : List ℕ) {k : Cluster}
    → clusters c ≡ some k
    → (out : ℕ × Cluster) × (pick_survivor clusters (c ∷ cs) ≡ some out)
unfolding pick_survivor
pick_survivor-some clusters c cs {k} e = rw e (older_of-some c k (pick_survivor clusters cs))

pub without-outside : (s c : ℕ) (cs : List ℕ) → is_in c cs ≡ false → is_in c (without s cs) ≡ false
without-outside s c cs h = elim (Bool-cases (eqb c s)) [
  | inl e ↦ rw (eqb→eq c s e) (without_self s cs)
  | inr e ↦ is_in-without s c cs e ∙ h
]

-- Nodes that are all of one cluster give that cluster.
pub clusters_for-same :
    (members : ℕ → Option ℕ) (s n : ℕ) (ns : List ℕ)
    → All (λ m. members m ≡ some s) (n ∷ ns)
    → clusters_for members (n ∷ ns) ≡ s ∷ []
unfolding clusters_for
clusters_for-same members s n [] h = rw h.0 refl
clusters_for-same members s n (m ∷ ns) h =
    rw (h.0, clusters_for-same members s m ns h.1) (ground (arith, eqb_refl s))

pub All-is_in {κ} : (P : ℕ → Type κ) (n : ℕ) (ns : List ℕ) → All P ns → is_in n ns ≡ true → P n
All-is_in P n [] h i = absurd (ground arith)
All-is_in P n (m ∷ ns) h i = elim (Bool-cases (eqb m n)) [
  | inl e ↦ subst P (eqb→eq m n e) h.0
  | inr e ↦ All-is_in P n ns h.1 (ground arith)
]

pub All-of_is_in {κ} :
    (P : ℕ → Type κ) (ns : List ℕ) → ((n : ℕ) → is_in n ns ≡ true → P n) → All P ns
All-of_is_in P [] h = tt
All-of_is_in P (m ∷ ns) h =
    (h m (is_in-head m ns), All-of_is_in P ns (λ n i. h n (is_in-tail n m ns i)))
