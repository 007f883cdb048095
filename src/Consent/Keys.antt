-- ===== src/Consent/Keys.antt =====
-- internal/consent/consent.go: the status of a key behind an upsert.
use osscdp.Prelude.{
  ℕ, String, true, false, Option, none, some, List, [], ◌∷◌, ◌++◌, eqb→eq, eqb_refl, if◌then◌else◌,
  ◌≡◌, refl, sym, ap, subst, inl, inr, arith, Bool-cases, Option-cases, eq_iff,
}
use osscdp.Consent.{Key, Consent, get, same_key, status_of, update_rows, upsert}

pub same_key→eq : (a b : Key) → same_key a b ≡ true → a ≡ b
same_key→eq a b h =
    let t : a.tenant_id ≡ b.tenant_id = eqb→eq _ _ (ground arith) in
    let p : a.profile_id ≡ b.profile_id = eqb→eq _ _ (ground arith) in
    let c : a.channel ≡ b.channel = (eq_iff a.channel b.channel).0 (ground arith) in
    let u : a.purpose ≡ b.purpose = (eq_iff a.purpose b.purpose).0 (ground arith) in
    λ i. record { tenant_id = t i; profile_id = p i; channel = c i; purpose = u i }

pub same_key_refl : (k : Key) → same_key k k ≡ true
same_key_refl k =
    rw
      (
        eqb_refl k.tenant_id,
        eqb_refl k.profile_id,
        (eq_iff k.channel k.channel).1 refl,
        (eq_iff k.purpose k.purpose).1 refl,
      )
      refl

-- A row of one key is of no other.
same_key-other : (a b k : Key) → same_key a b ≡ true → same_key b k ≡ false → same_key a k ≡ false
same_key-other a b k h n = subst (λ x. same_key x k ≡ false) (sym (same_key→eq a b h)) n

-- What an upsert leaves at its own key.
abbrev pub upserted : (String → String) → String → Option String → Option String
upserted f new none = some new
upserted f new (some old) = some (f old)

status_of-append :
    (k : Key) (rs : List Consent) (r : Consent)
    → status_of k (rs ++ r ∷ []) ≡ elim (status_of k rs) [
      | none ↦ (if same_key r.key k then some r.status else none)
      | some s ↦ some s
    ]
unfolding status_of
status_of-append k [] r = refl
status_of-append k (q ∷ rs) r = ground (arith, status_of-append k rs r)

module _ (f : String → String) (g : Option String → Option String) where
  status_of-update :
      (k : Key) (now : ℕ) (rs : List Consent) {s : String}
      → status_of k rs ≡ some s
      → status_of k (update_rows k f g now rs) ≡ some (f s)
  unfolding status_of update_rows
  status_of-update k now [] e = absurd (ground arith)
  status_of-update k now (r ∷ rs) e = elim (Bool-cases (same_key r.key k)) [
    | inl h ↦ rw (h, h) (ap (λ (o : Option String). upserted f "" o) (rw h at e))
    | inr h ↦ rw (h, h) (status_of-update k now rs (rw h at e))
  ]

  status_of-update-other :
      (k k' : Key) (now : ℕ) (rs : List Consent)
      → same_key k k' ≡ false
      → status_of k' (update_rows k f g now rs) ≡ status_of k' rs
  unfolding status_of update_rows
  status_of-update-other k k' now [] n = refl
  status_of-update-other k k' now (r ∷ rs) n = elim (Bool-cases (same_key r.key k)) [
    | inl h ↦ rw (h, same_key-other r.key k k' h n, status_of-update-other k k' now rs n) refl
    | inr h ↦ rw (h, status_of-update-other k k' now rs n) refl
  ]

  upsert-new :
      (r : Consent) (rows : List Consent)
      → status_of r.key rows ≡ none
      → upsert f g r rows ≡ rows ++ r ∷ []
  unfolding upsert
  upsert-new r rows n = rw (n, upsert) refl

  upsert-old :
      (r : Consent) (rows : List Consent) {s : String}
      → status_of r.key rows ≡ some s
      → upsert f g r rows ≡ update_rows r.key f g r.updated_at rows
  unfolding upsert
  upsert-old r rows e = rw (e, upsert) refl

  -- The status of any key behind an upsert.
  pub status_of-upsert :
      (k : Key) (r : Consent) (rows : List Consent)
      → status_of k (upsert f g r rows)
        ≡ (if same_key r.key k then upserted f r.status (status_of k rows) else status_of k rows)
  status_of-upsert k r rows = elim (Bool-cases (same_key r.key k)) [
    | inl h ↦
        let e = same_key→eq r.key k h in
        elim (Option-cases (status_of k rows)) [
          | inl n ↦
              let n' : status_of r.key rows ≡ none =
                subst (λ (x : Key). status_of x rows ≡ none) (sym e) n in
              rw (h, upsert-new r rows n', status_of-append k rows r, n, h) refl
          | inr (s, q) ↦
              let q' : status_of r.key rows ≡ some s =
                subst (λ (x : Key). status_of x rows ≡ some s) (sym e) q in
              rw (h, q, upsert-old r rows q')
                (subst
                  (λ (x : Key). status_of x (update_rows r.key f g r.updated_at rows) ≡ some (f s))
                  e (status_of-update r.key r.updated_at rows q'))
        ]
    | inr h ↦ elim (Option-cases (status_of r.key rows)) [
      | inl n ↦
          rw (h, upsert-new r rows n, status_of-append k rows r)
            (elim (Option-cases (status_of k rows)) [
              | inl m ↦ rw (m, h) refl
              | inr (s, m) ↦ rw m refl
            ])
      | inr (s, q) ↦
          rw (h, upsert-old r rows q) (status_of-update-other r.key k r.updated_at rows h)
    ]
  ]

pub get-found :
    (k : Key) (rows : List Consent) {s : String} → status_of k rows ≡ some s → get k rows ≡ s
unfolding get
get-found k rows h = rw h refl
