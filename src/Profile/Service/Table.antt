-- ===== src/Profile/Service/Table.antt =====
-- internal/profile/repo.go: which profile a canonical id has, behind each statement on the table.
use osscdp.Prelude.{
  ℕ, String, ◌==◌, true, false, ◌&&◌, ◌||◌, none, some, List, [], ◌∷◌, ◌++◌, eqb, eqb→eq, eqb_refl,
  if◌then◌else◌, ok, ◌≡◌, refl, sym, ap, ◌∙◌, subst, inl, inr, arith, Bool-cases, eq_iff,
  ok-injective,
}
use osscdp.Profile.Merge.{CustomerProfile}
use osscdp.Profile.Service.{
  is_profile, find_profile, has_id, insert_profile, is_version, write_profile, any_version,
  update_profile, delete_profile, Applied, is_applied, already_applied, mark_applied,
}

-- The primary key.
unfoldable pub Unique : List CustomerProfile → Type 0
Unique [] = Unit
Unique (p ∷ ps) = (has_id p.id ps ≡ false) × Unique ps

some-injective : {a b : CustomerProfile} → some a ≡ some b → a ≡ b
some-injective h = cc

module _ (t : ℕ) (c : String) where
  pub find_profile-is_profile :
      (ps : List CustomerProfile) {p : CustomerProfile}
      → find_profile t c ps ≡ some p
      → is_profile t c p ≡ true
  unfolding find_profile
  find_profile-is_profile [] h = absurd (ground arith)
  find_profile-is_profile (q ∷ ps) h = elim (Bool-cases (is_profile t c q)) [
    | inl e ↦
        subst (λ (x : CustomerProfile). is_profile t c x ≡ true) (some-injective (rw e at h)) e
    | inr e ↦ find_profile-is_profile ps (rw e at h)
  ]

  has_id-find_profile :
      (ps : List CustomerProfile) {p : CustomerProfile}
      → find_profile t c ps ≡ some p
      → has_id p.id ps ≡ true
  unfolding find_profile has_id
  has_id-find_profile [] h = absurd (ground arith)
  has_id-find_profile (q ∷ ps) {p} h = elim (Bool-cases (is_profile t c q)) [
    | inl e ↦
        subst (λ (x : CustomerProfile). (eqb q.id x.id || has_id x.id ps) ≡ true)
          (some-injective (rw e at h)) (ground (arith, eqb_refl q.id))
    | inr e ↦ let k = has_id-find_profile ps (rw e at h) in ground (arith, k)
  ]

  pub find_profile-delete :
      (id : ℕ) (ps : List CustomerProfile) {p : CustomerProfile}
      → find_profile t c ps ≡ some p
      → eqb p.id id ≡ false
      → find_profile t c (delete_profile t id ps) ≡ some p
  unfolding find_profile delete_profile
  find_profile-delete id [] h n = absurd (ground arith)
  find_profile-delete id (q ∷ ps) {p} h n = elim (Bool-cases (is_profile t c q)) [
    | inl e ↦
        let q_path : q ≡ p = some-injective (rw e at h) in
        let keep : eqb q.id id ≡ false =
          subst (λ (x : CustomerProfile). eqb x.id id ≡ false) (sym q_path) n in
        let stays : (eqb q.tenant_id t && eqb q.id id) ≡ false = ground (arith, keep) in
        rw (stays, e) (ap some q_path)
    | inr e ↦ elim (Bool-cases (eqb q.tenant_id t && eqb q.id id)) [
      | inl k ↦ rw k (find_profile-delete id ps (rw e at h) n)
      | inr k ↦ rw (k, e) (find_profile-delete id ps (rw e at h) n)
    ]
  ]

  pub find_profile-delete-none :
      (t' id : ℕ) (ps : List CustomerProfile)
      → find_profile t c ps ≡ none
      → find_profile t c (delete_profile t' id ps) ≡ none
  unfolding find_profile delete_profile
  find_profile-delete-none t' id [] h = refl
  find_profile-delete-none t' id (q ∷ ps) h = elim (Bool-cases (is_profile t c q)) [
    | inl e ↦ absurd (ground (arith, e, h))
    | inr e ↦ elim (Bool-cases (eqb q.tenant_id t' && eqb q.id id)) [
      | inl k ↦ rw k (find_profile-delete-none t' id ps (rw e at h))
      | inr k ↦ rw (k, e) (find_profile-delete-none t' id ps (rw e at h))
    ]
  ]

  pub find_profile-write :
      (new : CustomerProfile) (v : ℕ) (ps : List CustomerProfile) {p : CustomerProfile}
      → find_profile t c ps ≡ some p
      → is_profile t c new ≡ true
      → p.id ≡ new.id
      → (q : CustomerProfile) × (find_profile t c (write_profile new v ps) ≡ some q)
        × (q.id ≡ new.id)
  unfolding find_profile write_profile
  find_profile-write new v [] h m i = absurd (ground arith)
  find_profile-write new v (q ∷ ps) {p} h m i = elim (Bool-cases (is_version new.id v q)) [
    | inl k ↦ (new, rw (k, m) refl, refl)
    | inr k ↦ elim (Bool-cases (is_profile t c q)) [
      | inl e ↦ (
        q,
        rw (k, e) refl,
        ap (λ (x : CustomerProfile). x.id) (some-injective {a = q} {b = p} (rw e at h)) ∙ i,
      )
      | inr e ↦ let (r, f, j) = find_profile-write new v ps (rw e at h) m i in (r, rw (k, e) f, j)
    ]
  ]

  pub find_profile-write-none :
      (new : CustomerProfile) (v : ℕ) (ps : List CustomerProfile)
      → find_profile t c ps ≡ none
      → is_profile t c new ≡ false
      → find_profile t c (write_profile new v ps) ≡ none
  unfolding find_profile write_profile
  find_profile-write-none new v [] h m = refl
  find_profile-write-none new v (q ∷ ps) h m = elim (Bool-cases (is_profile t c q)) [
    | inl e ↦ absurd (ground (arith, e, h))
    | inr e ↦ elim (Bool-cases (is_version new.id v q)) [
      | inl k ↦ rw (k, m) (find_profile-write-none new v ps (rw e at h) m)
      | inr k ↦ rw (k, e) (find_profile-write-none new v ps (rw e at h) m)
    ]
  ]

  pub find_profile-append :
      (ps : List CustomerProfile) (p : CustomerProfile)
      → find_profile t c ps ≡ none
      → find_profile t c (ps ++ p ∷ []) ≡ (if is_profile t c p then some p else none)
  unfolding find_profile
  find_profile-append [] p h = refl
  find_profile-append (q ∷ ps) p h = elim (Bool-cases (is_profile t c q)) [
    | inl e ↦ absurd (ground (arith, e, h))
    | inr e ↦ rw e (find_profile-append ps p (rw e at h))
  ]

has_id-delete :
    (i t id : ℕ) (ps : List CustomerProfile)
    → has_id i ps ≡ false
    → has_id i (delete_profile t id ps) ≡ false
unfolding has_id delete_profile
has_id-delete i t id [] h = refl
has_id-delete i t id (p ∷ ps) h = elim (Bool-cases (eqb p.tenant_id t && eqb p.id id)) [
  | inl k ↦ rw k (has_id-delete i t id ps (ground (arith, h)))
  | inr k ↦ rw (k, has_id-delete i t id ps (ground (arith, h))) (ground (arith, h))
]

pub delete_profile-Unique :
    (t id : ℕ) (ps : List CustomerProfile) → Unique ps → Unique (delete_profile t id ps)
unfolding Unique delete_profile
delete_profile-Unique t id [] u = tt
delete_profile-Unique t id (p ∷ ps) (a, b) = elim (Bool-cases (eqb p.tenant_id t && eqb p.id id)) [
  | inl k ↦ rw k (delete_profile-Unique t id ps b)
  | inr k ↦ rw k (has_id-delete p.id t id ps a, delete_profile-Unique t id ps b)
]

has_id-append :
    (i : ℕ) (ps : List CustomerProfile) (p : CustomerProfile)
    → has_id i (ps ++ p ∷ []) ≡ (has_id i ps || eqb p.id i)
unfolding has_id
has_id-append i [] p = ground arith
has_id-append i (q ∷ ps) p = ground (arith, has_id-append i ps p)

append-Unique :
    (ps : List CustomerProfile) (p : CustomerProfile)
    → has_id p.id ps ≡ false
    → Unique ps
    → Unique (ps ++ p ∷ [])
unfolding Unique has_id
append-Unique [] p n u = (refl, tt)
append-Unique (q ∷ ps) p n (a, b) =
    (has_id-append q.id ps p ∙ ground (arith, a, n), append-Unique ps p (ground (arith, n)) b)

pub insert_profile-ok :
    (p : CustomerProfile) (ps : List CustomerProfile) {out : List CustomerProfile}
    → insert_profile p ps ≡ ok out
    → (out ≡ ps ++ p ∷ []) × (Unique ps → Unique out)
unfolding insert_profile
insert_profile-ok p ps h = elim (Bool-cases (has_id p.id ps)) [
  | inl e ↦ absurd (ground (arith, e, h))
  | inr e ↦ let q = sym (ok-injective (rw e at h)) in (q, λ u. rw q (append-Unique ps p e u))
]

pub update_profile-ok :
    (new : CustomerProfile) (v : ℕ) (ps : List CustomerProfile) {out : List CustomerProfile}
    → update_profile new v ps ≡ ok out
    → out ≡ write_profile new v ps
unfolding update_profile
update_profile-ok new v ps h = elim (Bool-cases (any_version new.id v ps)) [
  | inl e ↦ sym (ok-injective (rw e at h))
  | inr e ↦ absurd (ground (arith, e, h))
]

not-has_id :
    (a b : ℕ) (ps : List CustomerProfile)
    → has_id a ps ≡ true
    → has_id b ps ≡ false
    → eqb a b ≡ false
not-has_id a b ps h n = elim (Bool-cases (eqb a b)) [
  | inr e ↦ e
  | inl e ↦ absurd (
      let h' : has_id b ps ≡ true = subst (λ (x : ℕ). has_id x ps ≡ true) (eqb→eq a b e) h in
      ground arith)
]

pub two_names :
    (t : ℕ) (c c' : String) (r : CustomerProfile)
    → is_profile t c r ≡ true
    → is_profile t c' r ≡ true
    → (c' == c) ≡ false
    → ⊥
two_names t c c' r e e' n =
    let a = (eq_iff r.canonical_user_id c).0 (ground arith) in
    let b = (eq_iff r.canonical_user_id c').0 (ground arith) in
    let same = (eq_iff c' c).1 (sym b ∙ a) in ground arith

-- Two canonical ids have profiles with two ids.
pub find_profile-other :
    (t : ℕ) (c c' : String) (ps : List CustomerProfile) {p q : CustomerProfile}
    → Unique ps
    → (c' == c) ≡ false
    → find_profile t c ps ≡ some p
    → find_profile t c' ps ≡ some q
    → eqb p.id q.id ≡ false
unfolding Unique find_profile
find_profile-other t c c' [] u n h k = absurd (ground arith)
find_profile-other t c c' (r ∷ ps) {p} {q} (a, b) n h k = elim (Bool-cases (is_profile t c r)) [
  | inl e ↦ elim (Bool-cases (is_profile t c' r)) [
    | inl e' ↦ absurd (two_names t c c' r e e' n)
    | inr e' ↦
        let tail = has_id-find_profile t c' ps (rw e' at k) in
        let r_path : r ≡ p = some-injective (rw e at h) in
        subst (λ (x : CustomerProfile). eqb x.id q.id ≡ false) r_path
          (let d = not-has_id q.id r.id ps tail a in ground arith)
  ]
  | inr e ↦ elim (Bool-cases (is_profile t c' r)) [
    | inl e' ↦
        let tail = has_id-find_profile t c ps (rw e at h) in
        subst (λ (x : CustomerProfile). eqb p.id x.id ≡ false) (some-injective (rw e' at k))
          (not-has_id p.id r.id ps tail a)
    | inr e' ↦ find_profile-other t c c' ps b n (rw e at h) (rw e' at k)
  ]
]

is_applied_self :
    (t p : ℕ) (e : String)
    → is_applied t p e (record { tenant_id = t; profile_id = p; event_id = e }) ≡ true
is_applied_self t p e = rw (eqb_refl t, eqb_refl p, (eq_iff e e).1 refl) refl

already_applied-append :
    (t p : ℕ) (e : String) (as' : List Applied)
    → already_applied t p e (as' ++ (record { tenant_id = t; profile_id = p; event_id = e }) ∷ [])
      ≡ true
unfolding already_applied
already_applied-append t p e [] = rw (is_applied_self t p e) refl
already_applied-append t p e (a ∷ as') = rw (already_applied-append t p e as') (ground arith)

pub already_applied-mark :
    (t p : ℕ) (e : String) (as' : List Applied)
    → already_applied t p e (mark_applied t p e as') ≡ true
unfolding mark_applied
already_applied-mark t p e as' = elim (Bool-cases (already_applied t p e as')) [
  | inl h ↦ rw (h, h) refl
  | inr h ↦ rw h (already_applied-append t p e as')
]
