-- ===== src/Profile/Service/Again.antt =====
-- internal/profile/service.go: an event that is delivered twice is applied once.
use osscdp.Prelude.{
  ℕ, String, ◌==◌, true, false, Option, none, some, List, [], ◌∷◌, eqb_refl, ok, ◌≡◌, refl, sym,
  ◌∙◌, inl, inr, Bool-cases, Option-cases, eq_iff, ok-injective, >>=-eq-ok,
}
use osscdp.Events.Envelope.{Envelope}
use osscdp.Profile.Merge.{stored_profile, CustomerProfile, merge_reparent}
use osscdp.Profile.Service.{
  Env, Db, Located, Folding, Updated, is_profile, find_profile, already_applied, insert_profile,
  update_profile, new_profile, find_or_create, fold_loser, fold_canonical, fold_losers,
  reparent_children, merged_event, apply_event,
}
use osscdp.Profile.Service.Table.{
  Unique, find_profile-delete, find_profile-delete-none, find_profile-write,
  find_profile-write-none, find_profile-append, delete_profile-Unique, insert_profile-ok,
  update_profile-ok, find_profile-other, two_names, already_applied-mark,
}

merge_reparent-id :
    (env : Env) (p q : CustomerProfile)
    → ((merge_reparent env.runtime p q).0.id ≡ p.id)
      × ((merge_reparent env.runtime p q).0.tenant_id ≡ p.tenant_id)
      × ((merge_reparent env.runtime p q).0.canonical_user_id ≡ p.canonical_user_id)
unfolding merge_reparent
merge_reparent-id env p q = (refl, refl, refl)

module _ (env : Env) (t : ℕ) (own : String) where
  -- What the loop over the losers keeps: the row of the survivor.
  pub record Holds (f : Folding) : Type 0 where
    pub row : CustomerProfile
    pub found : find_profile t own f.db.profiles ≡ some row
    pub same_id : row.id ≡ f.profile.id
    pub mine : is_profile t own f.profile ≡ true
    pub unique : Unique f.db.profiles

  fold_loser-Holds :
      (c : String) (loser : CustomerProfile) (f : Folding)
      → Holds f
      → (c == own) ≡ false
      → find_profile t c f.db.profiles ≡ some loser
      → Holds (fold_loser env t c loser f)
  unfolding fold_loser reparent_children
  fold_loser-Holds c loser f h n k =
      let (i, ten, can) = merge_reparent-id env f.profile loser in
      let apart = find_profile-other t own c f.db.profiles h.unique n h.found k in
      record {
        row = h.row;
        found = find_profile-delete t own loser.id f.db.profiles h.found apart;
        same_id = h.same_id ∙ sym i;
        mine = rw (ten, can) h.mine;
        unique = delete_profile-Unique t loser.id f.db.profiles h.unique;
      }

  fold_canonical-Holds : (c : String) (f : Folding) → Holds f → Holds (fold_canonical env t own c f)
  unfolding fold_canonical
  fold_canonical-Holds c f h = elim (Bool-cases (c == own)) [
    | inl e ↦ rw e h
    | inr e ↦ elim (Option-cases (find_profile t c f.db.profiles)) [
      | inl n ↦ rw (e, n, fold_canonical) h
      | inr (loser, k) ↦ rw (e, k, fold_canonical) (fold_loser-Holds c loser f h e k)
    ]
  ]

  pub fold_losers-Holds :
      (cs : List String) (f : Folding) → Holds f → Holds (fold_losers env t own cs f)
  unfolding fold_losers
  fold_losers-Holds [] f h = h
  fold_losers-Holds (c ∷ cs) f h =
      fold_losers-Holds cs (fold_canonical env t own c f) (fold_canonical-Holds c f h)

  -- A canonical id without a profile gets none.
  fold_canonical-none :
      (c0 c : String) (f : Folding)
      → find_profile t c0 f.db.profiles ≡ none
      → find_profile t c0 (fold_canonical env t own c f).db.profiles ≡ none
  unfolding fold_canonical fold_loser reparent_children
  fold_canonical-none c0 c f h = elim (Bool-cases (c == own)) [
    | inl e ↦ rw e h
    | inr e ↦ elim (Option-cases (find_profile t c f.db.profiles)) [
      | inl n ↦ rw (e, n, fold_canonical) h
      | inr (loser, k) ↦
          rw (e, k, fold_canonical) (find_profile-delete-none t c0 t loser.id f.db.profiles h)
    ]
  ]

  pub fold_losers-none :
      (c0 : String) (cs : List String) (f : Folding)
      → find_profile t c0 f.db.profiles ≡ none
      → find_profile t c0 (fold_losers env t own cs f).db.profiles ≡ none
  unfolding fold_losers
  fold_losers-none c0 [] f h = h
  fold_losers-none c0 (c ∷ cs) f h =
      fold_losers-none c0 cs (fold_canonical env t own c f) (fold_canonical-none c0 c f h)

is_profile-other :
    (t : ℕ) (c c' : String) (p : CustomerProfile)
    → is_profile t c p ≡ true
    → (c' == c) ≡ false
    → is_profile t c' p ≡ false
is_profile-other t c c' p h n = elim (Bool-cases (is_profile t c' p)) [
  | inr e ↦ e
  | inl e ↦ absurd (two_names t c c' p h e n)
]

module _ (env : Env) where
  -- The row of the survivor behind the event, and its ledger.
  pub apply_event-ok :
      (e : Envelope) (l : Located) (f : Folding) (own : String) (out : Db × Option Updated)
      → Holds env e.tenant_id own f
      → apply_event env e l f ≡ ok out
      → (q : CustomerProfile) × (find_profile e.tenant_id own out.0.profiles ≡ some q)
        × (already_applied e.tenant_id q.id e.event_id out.0.history ≡ true)
        × ((c : String)
            → (c == own) ≡ false
            → find_profile e.tenant_id c f.db.profiles ≡ none
            → find_profile e.tenant_id c out.0.profiles ≡ none)
  unfolding apply_event merged_event stored_profile
  apply_event-ok e l f own out h k =
      let new = stored_profile env.runtime (merged_event env e f.profile).0 in
      let (ps, u, r) = >>=-eq-ok (update_profile new f.profile.version f.db.profiles) _ k in
      let (q, found, i) =
        find_profile-write e.tenant_id own new f.profile.version f.db.profiles h.found h.mine
          h.same_id in
      let w = update_profile-ok new f.profile.version f.db.profiles u in
      rw (sym (ok-injective r)) (
        q,
        rw w found,
        rw i (already_applied-mark e.tenant_id f.profile.id e.event_id f.db.history),
        λ c n z. rw w (
            find_profile-write-none e.tenant_id c new f.profile.version f.db.profiles z
              (is_profile-other e.tenant_id own c new h.mine n)),
      )

  -- Where the first part of updateTx finds the profile.
  unfoldable pub Placed : ℕ → String → List CustomerProfile → Located → Type 0
  Placed t c ps l =
      (l.canonical ≡ c)
      × (find_profile t c l.profiles ≡ some l.profile)
      × Unique l.profiles
      × ((c0 : String)
          → (c0 == c) ≡ false
          → find_profile t c0 ps ≡ none
          → find_profile t c0 l.profiles ≡ none)

  pub find_or_create-Placed :
      (t : ℕ) (c : String) (k : ℕ) (ps : List CustomerProfile) (l : Located)
      → Unique ps
      → find_or_create env t c k ps ≡ ok l
      → Placed t c ps l
  unfolding find_or_create new_profile Placed
  find_or_create-Placed t c k ps l u h = elim (Option-cases (find_profile t c ps)) [
    | inr (p, e) ↦ rw (sym (ok-injective (rw (e, find_or_create) at h))) (refl, e, u, λ c0 n z. z)
    | inl e ↦
        let (ps', i, r) =
          >>=-eq-ok (insert_profile (new_profile env t c k) ps) _ (rw (e, find_or_create) at h) in
        let (a, b) = insert_profile-ok (new_profile env t c k) ps i in
        let self : is_profile t c (new_profile env t c k) ≡ true =
          rw (eqb_refl t, (eq_iff c c).1 refl) refl in
        rw (sym (ok-injective r)) (
          refl,
          rw (a, find_profile-append t c ps (new_profile env t c k) e, self) refl,
          b u,
          λ c0 n z.
              rw
                (
                  a,
                  find_profile-append t c0 ps (new_profile env t c k) z,
                  is_profile-other t c c0 (new_profile env t c k) self n,
                )
                refl,
        )
  ]
