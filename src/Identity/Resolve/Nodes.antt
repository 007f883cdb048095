-- ===== src/Identity/Resolve/Nodes.antt =====
-- internal/identity/service.go: the loop of `resolveTx` over the identifiers of an event, and the
-- nodes that it leaves.
use osscdp.Prelude.{
  ℕ, suc, String, Option, some, List, [], ◌∷◌, ok, ◌≡◌, refl, sym, ap, >>=-eq-ok, ok-injective,
}
use osscdp.Identity.Identifier.{Identifier}
use osscdp.Identity.Graph.{Node, find_node, upsert_node}
use osscdp.Identity.Graph.Rows.{upsert_node-found, find_node-upsert, find_node-upsert-other}
use osscdp.Identity.Resolve.{Env, upsert_nodes, encrypted}

-- The node of an identifier, in one tenant.
unfoldable pub node_of : Env → ℕ → Identifier → List Node → Option ℕ
node_of env tenant a nodes =
    find_node tenant a.namespace (env.value_hash tenant a.namespace a.value) nodes

pub node_of-same :
    (env env' : Env) (tenant : ℕ) (a : Identifier) (nodes : List Node)
    → env'.value_hash ≡ env.value_hash
    → node_of env' tenant a nodes ≡ node_of env tenant a nodes
unfolding node_of
node_of-same env env' tenant a nodes e =
    ap
      (λ (f : ℕ → String → String → String).
        find_node tenant a.namespace (f tenant a.namespace a.value) nodes)
      e

-- The identifiers have these nodes.
pub data Located (env : Env) (tenant : ℕ) (nodes : List Node)
    : List Identifier → List ℕ → Type 0 where
  nowhere : Located env tenant nodes [] []
  here :
      (a : Identifier) (n : ℕ) {ids : List Identifier} {ns : List ℕ}
      → node_of env tenant a nodes ≡ some n
      → Located env tenant nodes ids ns
      → Located env tenant nodes (a ∷ ids) (n ∷ ns)

pub Located-nil :
    (env : Env) (tenant : ℕ) (nodes : List Node) (ns : List ℕ)
    → Located env tenant nodes [] ns
    → ns ≡ []
Located-nil env tenant nodes ns nowhere = refl

pub Located-cons :
    (env : Env) (tenant : ℕ) (nodes : List Node) {a : Identifier} {ids : List Identifier}
    (all : List ℕ)
    → Located env tenant nodes (a ∷ ids) all
    → (n : ℕ) × (ns : List ℕ) × (all ≡ n ∷ ns)
      × (node_of env tenant a nodes ≡ some n)
      × Located env tenant nodes ids ns
Located-cons env tenant nodes all (here a n {ids} {ns} e l) = (n, ns, refl, e, l)

-- No value fails to encrypt.
unfoldable pub Enciphers : Env → Type 0
Enciphers env = (value : String) → (enc : Option String) × (encrypted env.cipher value ≡ ok enc)

module _ (env : Env) (tenant : ℕ) where
  -- The row that one identifier leaves.
  upserted : ℕ → Identifier → Option String → List Node → List Node × ℕ
  upserted i a enc nodes =
      upsert_node (env.new_node i) tenant a.namespace (env.value_hash tenant a.namespace a.value)
        enc nodes

  upsert_nodes-nil :
      (i : ℕ) (nodes : List Node) (out : List Node × List ℕ)
      → upsert_nodes env tenant i [] nodes ≡ ok out
      → out ≡ (nodes, [])
  unfolding upsert_nodes
  upsert_nodes-nil i nodes out h = sym (ok-injective h)

  upsert_nodes-step :
      (i : ℕ) (a : Identifier) (ids : List Identifier) (nodes : List Node)
      (out : List Node × List ℕ)
      → upsert_nodes env tenant i (a ∷ ids) nodes ≡ ok out
      → (enc : Option String) × (rest : List Node × List ℕ) × (upsert_nodes env tenant
            (suc i)
            ids
            (upserted i a enc nodes).0
          ≡ ok rest)
        × (out ≡ (rest.0, (upserted i a enc nodes).1 ∷ rest.1))
  unfolding upsert_nodes upserted
  upsert_nodes-step i a ids nodes out h =
      let (enc, c, e) = >>=-eq-ok (encrypted env.cipher a.value) _ h in
      let (rest, c', e') =
        >>=-eq-ok (upsert_nodes env tenant (suc i) ids (upserted i a enc nodes).0) _ e in
      (enc, rest, c', sym (ok-injective e'))

  node_of-upserted :
      (i : ℕ) (a : Identifier) (enc : Option String) (nodes : List Node)
      → node_of env tenant a (upserted i a enc nodes).0 ≡ some (upserted i a enc nodes).1
  unfolding node_of upserted
  node_of-upserted i a enc nodes = find_node-upsert (env.new_node i) tenant a.namespace _ enc nodes

  node_of-kept :
      (b : Identifier) (i : ℕ) (a : Identifier) (enc : Option String) (nodes : List Node) {n : ℕ}
      → node_of env tenant b nodes ≡ some n
      → node_of env tenant b (upserted i a enc nodes).0 ≡ some n
  unfolding node_of upserted
  node_of-kept b i a enc nodes e =
      find_node-upsert-other tenant b.namespace _ (env.new_node i) tenant a.namespace _ enc nodes e

  upserted-found :
      (i : ℕ) (a : Identifier) (enc : Option String) (nodes : List Node) {n : ℕ}
      → node_of env tenant a nodes ≡ some n
      → (upserted i a enc nodes).1 ≡ n
  unfolding node_of upserted
  upserted-found i a enc nodes e =
      upsert_node-found (env.new_node i) tenant a.namespace _ enc nodes e

  -- The loop loses no node.
  upsert_nodes-kept :
      (b : Identifier) (i : ℕ) (ids : List Identifier) (nodes : List Node)
      (out : List Node × List ℕ) {n : ℕ}
      → upsert_nodes env tenant i ids nodes ≡ ok out
      → node_of env tenant b nodes ≡ some n
      → node_of env tenant b out.0 ≡ some n
  upsert_nodes-kept b i [] nodes out h e = rw (upsert_nodes-nil i nodes out h) e
  upsert_nodes-kept b i (a ∷ ids) nodes out h e =
      let (enc, rest, c, q) = upsert_nodes-step i a ids nodes out h in
      rw q (
        upsert_nodes-kept b (suc i) ids (upserted i a enc nodes).0 rest c
          (node_of-kept b i a enc nodes e))

  -- The loop gives each identifier its node.
  pub upsert_nodes-Located :
      (i : ℕ) (ids : List Identifier) (nodes : List Node) (out : List Node × List ℕ)
      → upsert_nodes env tenant i ids nodes ≡ ok out
      → Located env tenant out.0 ids out.1
  upsert_nodes-Located i [] nodes out h = rw (upsert_nodes-nil i nodes out h) nowhere
  upsert_nodes-Located i (a ∷ ids) nodes out h =
      let (enc, rest, c, q) = upsert_nodes-step i a ids nodes out h in
      rw q (
        here a (upserted i a enc nodes).1
          (upsert_nodes-kept a (suc i) ids (upserted i a enc nodes).0 rest c
            (node_of-upserted i a enc nodes))
          (upsert_nodes-Located (suc i) ids (upserted i a enc nodes).0 rest c))

  -- Every node of the first rows is found in the second.
  Extends : List Node → List Node → Type 0
  Extends old nodes =
      (b : Identifier) (n : ℕ)
      → node_of env tenant b old ≡ some n
      → node_of env tenant b nodes ≡ some n

  Extends-upserted :
      (i : ℕ) (a : Identifier) (enc : Option String) (old nodes : List Node)
      → Extends old nodes
      → Extends old (upserted i a enc nodes).0
  unfolding Extends
  Extends-upserted i a enc old nodes x b n e = node_of-kept b i a enc nodes (x b n e)

  upsert_nodes-found :
      (old : List Node) (i : ℕ) (nodes : List Node) (out : List Node × List ℕ)
      {ids : List Identifier} {ns : List ℕ}
      → Extends old nodes
      → Located env tenant old ids ns
      → upsert_nodes env tenant i ids nodes ≡ ok out
      → out.1 ≡ ns
  unfolding Extends
  upsert_nodes-found old i nodes out x nowhere h = rw (upsert_nodes-nil i nodes out h) refl
  upsert_nodes-found old i nodes out x (here a n {ids} {ns} e l) h =
      let (enc, rest, c, q) = upsert_nodes-step i a ids nodes out h in
      let tail =
        upsert_nodes-found old (suc i) (upserted i a enc nodes).0 rest
          (Extends-upserted i a enc old nodes x) l c in
      rw (q, upserted-found i a enc nodes (x a n e), tail) refl

  -- On nodes that are there, the loop returns them.
  pub upsert_nodes-again :
      (i : ℕ) (nodes : List Node) (out : List Node × List ℕ) {ids : List Identifier} {ns : List ℕ}
      → Located env tenant nodes ids ns
      → upsert_nodes env tenant i ids nodes ≡ ok out
      → out.1 ≡ ns
  unfolding Extends
  upsert_nodes-again i nodes out l h = upsert_nodes-found nodes i nodes out (λ b n e. e) l h

  -- The loop ends with nodes unless a value fails to encrypt.
  pub upsert_nodes-ok :
      Enciphers env
      → (i : ℕ) (ids : List Identifier) (nodes : List Node)
      → (out : List Node × List ℕ) × (upsert_nodes env tenant i ids nodes ≡ ok out)
  unfolding Enciphers upsert_nodes upserted
  upsert_nodes-ok enc i [] nodes = ((nodes, []), refl)
  upsert_nodes-ok enc i (a ∷ ids) nodes =
      let (x, e) = enc a.value in
      let (rest, c) = upsert_nodes-ok enc (suc i) ids (upserted i a x nodes).0 in
      ((rest.0, (upserted i a x nodes).1 ∷ rest.1), rw (e, c) refl)
