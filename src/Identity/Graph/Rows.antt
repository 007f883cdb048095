-- ===== src/Identity/Graph/Rows.antt =====
-- internal/identity/repo.go: `upsertNode`. Its row is found afterwards, and every row that was found
-- before is found still.
use osscdp.Prelude.{
  ℕ, String, true, Option, none, some, List, [], ◌∷◌, ◌++◌, eqb_refl, ◌≡◌, refl, inl, inr, arith,
  Bool-cases, Option-cases, eq_iff,
}
use osscdp.Identity.Graph.{Node, is_node, find_node, backfill, upsert_node}

is_node_self :
    (id tenant : ℕ) (namespace hash : String) (enc : Option String)
    → is_node tenant namespace hash (record {
      id = id;
      tenant_id = tenant;
      namespace = namespace;
      value_hash = hash;
      value_encrypted = enc;
    })
      ≡ true
is_node_self id tenant namespace hash enc =
    rw (eqb_refl tenant, (eq_iff namespace namespace).1 refl, (eq_iff hash hash).1 refl) refl

find_node-backfill :
    (t : ℕ) (s h : String) (tenant : ℕ) (namespace hash : String) (enc : Option String)
    (ns : List Node)
    → find_node t s h (backfill tenant namespace hash enc ns) ≡ find_node t s h ns
unfolding find_node backfill
find_node-backfill t s h tenant namespace hash enc [] = refl
find_node-backfill t s h tenant namespace hash enc (n ∷ ns) =
    elim (Bool-cases (is_node tenant namespace hash n)) [
      | inl e ↦ rw (e, find_node-backfill t s h tenant namespace hash enc ns) refl
      | inr e ↦ rw (e, find_node-backfill t s h tenant namespace hash enc ns) refl
    ]

find_node-append :
    (t : ℕ) (s h : String) (ns ms : List Node) {found : ℕ}
    → find_node t s h ns ≡ some found
    → find_node t s h (ns ++ ms) ≡ some found
unfolding find_node
find_node-append t s h [] ms e = absurd (ground arith)
find_node-append t s h (n ∷ ns) ms e = elim (Bool-cases (is_node t s h n)) [
  | inl k ↦ rw k (rw k at e)
  | inr k ↦ rw k (find_node-append t s h ns ms (rw k at e))
]

find_node-new :
    (t : ℕ) (s h : String) (ns : List Node) (n : Node)
    → find_node t s h ns ≡ none
    → is_node t s h n ≡ true
    → find_node t s h (ns ++ n ∷ []) ≡ some n.id
unfolding find_node
find_node-new t s h [] n e k = rw k refl
find_node-new t s h (m ∷ ns) n e k = elim (Bool-cases (is_node t s h m)) [
  | inl q ↦ absurd (ground arith)
  | inr q ↦ rw q (find_node-new t s h ns n (rw q at e) k)
]

-- A row that is there gives its own id.
pub upsert_node-found :
    (id tenant : ℕ) (namespace hash : String) (enc : Option String) (ns : List Node) {found : ℕ}
    → find_node tenant namespace hash ns ≡ some found
    → (upsert_node id tenant namespace hash enc ns).1 ≡ found
unfolding upsert_node
upsert_node-found id tenant namespace hash enc ns e = ground arith

pub find_node-upsert :
    (id tenant : ℕ) (namespace hash : String) (enc : Option String) (ns : List Node)
    → find_node tenant namespace hash (upsert_node id tenant namespace hash enc ns).0
      ≡ some (upsert_node id tenant namespace hash enc ns).1
unfolding upsert_node
find_node-upsert id tenant namespace hash enc ns =
    elim (Option-cases (find_node tenant namespace hash ns)) [
      | inr (found, e) ↦
          ground (arith, find_node-backfill tenant namespace hash tenant namespace hash enc ns)
      | inl e ↦
          let q =
            find_node-new tenant namespace hash ns
              (record {
                id = id;
                tenant_id = tenant;
                namespace = namespace;
                value_hash = hash;
                value_encrypted = enc;
              })
              e (is_node_self id tenant namespace hash enc) in
          ground (arith, q)
    ]

pub find_node-upsert-other :
    (t : ℕ) (s h : String) (id tenant : ℕ) (namespace hash : String) (enc : Option String)
    (ns : List Node) {found : ℕ}
    → find_node t s h ns ≡ some found
    → find_node t s h (upsert_node id tenant namespace hash enc ns).0 ≡ some found
unfolding upsert_node
find_node-upsert-other t s h id tenant namespace hash enc ns k =
    elim (Option-cases (find_node tenant namespace hash ns)) [
      | inr (found, e) ↦ ground (arith, find_node-backfill t s h tenant namespace hash enc ns)
      | inl e ↦
          let q =
            find_node-append t s h ns
              ((record {
                id = id;
                tenant_id = tenant;
                namespace = namespace;
                value_hash = hash;
                value_encrypted = enc;
              })
                ∷ [])
              k in
          ground (arith, q)
    ]
