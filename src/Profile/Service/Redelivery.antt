-- ===== src/Profile/Service/Redelivery.antt =====
-- internal/profile/service.go: `updateTx` twice on one event.
use osscdp.Prelude.{
  ℕ, String, ◌==◌, true, false, Option, none, some, List, [], ok, ◌≡◌, refl, sym, ap, ◌∙◌, subst,
  inl, inr, ◌⊎◌, Bool-cases, Option-cases, eq_iff, ok-injective, >>=-eq-ok,
}
use osscdp.Events.Envelope.{Envelope}
use osscdp.Profile.Merge.{CustomerProfile}
use osscdp.Profile.Service.{
  Env, Db, Located, Folding, Updated, find_profile, already_applied, find_or_create, redirected,
  locate, fold_losers, update_located, update_tx,
}
use osscdp.Profile.Service.Table.{Unique, find_profile-is_profile}
use osscdp.Profile.Service.Again.{
  Placed, fold_losers-Holds, fold_losers-none, apply_event-ok, find_or_create-Placed,
}

module _ (env : Env) where
  -- The canonical id that an event without a profile is redirected to.
  target : ℕ → String → ℕ → String × ℕ
  target t c k = redirected t c k (env.survivor_of t k)

  locate-cases :
      (t : ℕ) (c : String) (k : ℕ) (ps : List CustomerProfile) (l : Located)
      → Unique ps
      → locate env t c k ps ≡ ok l
      → ((l.canonical ≡ c) × (find_profile t c l.profiles ≡ some l.profile) × Unique l.profiles)
        ⊎ ((find_profile t c ps ≡ none) × Placed env t (target t c k).0 ps l)
  unfolding locate target
  locate-cases t c k ps l u h = elim (Option-cases (find_profile t c ps)) [
    | inr (p, e) ↦ inl (rw (sym (ok-injective (rw (e, locate) at h))) (refl, e, u))
    | inl e ↦ inr (
      e,
      find_or_create-Placed env t (redirected t c k (env.survivor_of t k)).0 _ ps l u
          (rw (e, locate) at h),
    )
  ]

  -- What every stage behind `locate` keeps.
  Follows : ℕ → Located → List CustomerProfile → CustomerProfile → Type 0
  Follows t l ps q =
      (find_profile t l.canonical ps ≡ some q)
      × ((c : String)
          → (c == l.canonical) ≡ false
          → find_profile t c l.profiles ≡ none
          → find_profile t c ps ≡ none)

  locate-found :
      (t : ℕ) (c : String) (k : ℕ) (ps : List CustomerProfile) {q : CustomerProfile}
      → find_profile t c ps ≡ some q
      → (l : Located) × (locate env t c k ps ≡ ok l) × (l.profiles ≡ ps) × (l.profile ≡ q)
  unfolding locate
  locate-found t c k ps {q} e = (
    record { profiles = ps; profile = q; canonical = c; cluster = k },
    rw (e, locate) refl,
    refl,
    refl,
  )

  locate-redirected :
      (t : ℕ) (c : String) (k : ℕ) (ps : List CustomerProfile) {q : CustomerProfile}
      → find_profile t c ps ≡ none
      → find_profile t (target t c k).0 ps ≡ some q
      → (l : Located) × (locate env t c k ps ≡ ok l) × (l.profiles ≡ ps) × (l.profile ≡ q)
  unfolding locate find_or_create target
  locate-redirected t c k ps {q} n e = (
    record { profiles = ps; profile = q; canonical = (target t c k).0; cluster = (target t c k).1 },
    rw (n, locate) (rw (e, find_or_create) refl),
    refl,
    refl,
  )

  locate-Unique :
      (t : ℕ) (c : String) (k : ℕ) (ps : List CustomerProfile) (l : Located)
      → Unique ps
      → locate env t c k ps ≡ ok l
      → (find_profile t l.canonical l.profiles ≡ some l.profile) × Unique l.profiles
  unfolding Placed
  locate-Unique t c k ps l u h = elim (locate-cases t c k ps l u h) [
    | inl (own, a, b) ↦
        (subst (λ (x : String). find_profile t x l.profiles ≡ some l.profile) (sym own) a, b)
    | inr (n, (own, a, b, kept)) ↦
        (subst (λ (x : String). find_profile t x l.profiles ≡ some l.profile) (sym own) a, b)
  ]

  -- Behind the update the profile is there and the event is in its ledger.
  update_located-Follows :
      (e : Envelope) (merged : List String) (db : Db) (l : Located) (out : Db × Option Updated)
      → find_profile e.tenant_id l.canonical l.profiles ≡ some l.profile
      → Unique l.profiles
      → update_located env e merged db l ≡ ok out
      → (q : CustomerProfile) × Follows e.tenant_id l out.0.profiles q
        × (already_applied e.tenant_id q.id e.event_id out.0.history ≡ true)
  unfolding update_located Follows
  update_located-Follows e merged db l out a u h =
      elim (Bool-cases (already_applied e.tenant_id l.profile.id e.event_id db.history)) [
        | inl k ↦ rw (sym (ok-injective (rw k at h))) (l.profile, (a, λ c n z. z), k)
        | inr k ↦
            let start : Folding = record {
              db = record db { profiles = l.profiles };
              profile = l.profile;
              changed = [];
              reparented = [];
            } in
            let f = fold_losers env e.tenant_id l.canonical merged start in
            let held = fold_losers-Holds env e.tenant_id l.canonical merged start (record {
              row = l.profile;
              found = a;
              same_id = refl;
              mine = find_profile-is_profile e.tenant_id l.canonical l.profiles a;
              unique = u;
            }) in
            let (q, found, applied, kept) =
              apply_event-ok env e l f l.canonical out held (rw k at h) in
            (
              q,
              (
                found,
                λ c n z. kept c n (fold_losers-none env e.tenant_id l.canonical c merged start z),
              ),
              applied,
            )
      ]

  update_located-applied :
      (e : Envelope) (merged : List String) (db : Db) (l : Located)
      → l.profiles ≡ db.profiles
      → already_applied e.tenant_id l.profile.id e.event_id db.history ≡ true
      → update_located env e merged db l ≡ ok (db, none)
  unfolding update_located
  update_located-applied e merged db l p a =
      rw a (ap (λ (ps : List CustomerProfile). ok (record db { profiles = ps }, none)) p)

module _ (env env' : Env) (same : env'.survivor_of ≡ env.survivor_of) where
  target-same : (t : ℕ) (c : String) (k : ℕ) → target env' t c k ≡ target env t c k
  unfolding target
  target-same t c k = ap (λ (f : ℕ → ℕ → Option (String × ℕ)). redirected t c k (f t k)) same

  -- The second search finds the same profile.
  locate-again :
      (t : ℕ) (c : String) (k : ℕ) (ps ps' : List CustomerProfile) (l : Located)
      (q : CustomerProfile)
      → Unique ps
      → locate env t c k ps ≡ ok l
      → Follows env t l ps' q
      → (l' : Located) × (locate env' t c k ps' ≡ ok l') × (l'.profiles ≡ ps') × (l'.profile ≡ q)
  unfolding Follows Placed
  locate-again t c k ps ps' l q u h (found, none_kept) = elim (locate-cases env t c k ps l u h) [
    | inl (own, a, b) ↦
        locate-found env' t c k ps'
          (subst (λ (x : String). find_profile t x ps' ≡ some q) own found)
    | inr (n, (own, a, b, kept)) ↦
        let own' : l.canonical ≡ (target env' t c k).0 =
          own ∙ ap (λ (x : String × ℕ). x.0) (sym (target-same t c k)) in
        let there : find_profile t (target env' t c k).0 ps' ≡ some q =
          subst (λ (x : String). find_profile t x ps' ≡ some q) own' found in
        elim (Bool-cases (c == l.canonical)) [
          | inl e ↦ locate-found env' t c k ps' (
              subst (λ (x : String). find_profile t x ps' ≡ some q)
                (sym ((eq_iff c l.canonical).0 e)) found)
          | inr e ↦
              locate-redirected env' t c k ps'
                (none_kept c e (kept c (subst (λ (x : String). (c == x) ≡ false) own e) n)) there
        ]
  ]

-- An event that was applied to a profile, or was known there, is delivered again with nothing in
-- between: the second update succeeds, changes nothing and reports that it was not applied, whatever
-- profiles the second delivery names as merged. The ids of the profiles are distinct before, and the
-- two runs agree on the clusters that were merged.
pub update_tx-again :
    (env env' : Env) (canonical : String) (cluster : ℕ) (merged merged' : List String)
    (e : Envelope) (db : Db) (out : Db × Option Updated)
    → Unique db.profiles
    → env'.survivor_of ≡ env.survivor_of
    → update_tx env canonical cluster merged e db ≡ ok out
    → update_tx env' canonical cluster merged' e out.0 ≡ ok (out.0, none)
unfolding update_tx
update_tx-again env env' canonical cluster merged merged' e db out u same h =
    let (l, p, r) = >>=-eq-ok (locate env e.tenant_id canonical cluster db.profiles) _ h in
    let (a, b) = locate-Unique env e.tenant_id canonical cluster db.profiles l u p in
    let (q, follows, applied) = update_located-Follows env e merged db l out a b r in
    let (l', p', s', w) =
      locate-again env env' same e.tenant_id canonical cluster db.profiles out.0.profiles l q u p
        follows in
    let known =
      subst
        (λ (x : CustomerProfile). already_applied e.tenant_id x.id e.event_id out.0.history ≡ true)
        (sym w) applied in
    rw p' (update_located-applied env' e merged' out.0 l' s' known)
