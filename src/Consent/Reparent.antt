-- ===== src/Consent/Reparent.antt =====
-- internal/profile/repo.go: the consents of a profile that another is folded into.
use osscdp.Prelude.{
  ℕ, String, Bool, true, false, Option, none, some, List, [], ◌∷◌, eqb, eqb_refl, ◌==◌,
  if◌then◌else◌, ◌≡◌, refl, sym, ap, ◌∙◌, subst, inl, inr, arith, Bool-cases,
}
use osscdp.Consent.{
  Key, Consent, denied, same_key, status_of, upsert, denied_wins, of_profile, rows_of, delete_rows,
  merge_rows, reparent_consent, new_row,
}
use osscdp.Consent.Keys.{same_key→eq, upserted, status_of-upsert}

-- The unique key.
unfoldable pub Unique : List Consent → Type 0
Unique [] = Unit
Unique (r ∷ rs) = (status_of r.key rs ≡ none) × Unique rs

-- The same key of another profile.
abbrev pub with_profile : ℕ → Key → Key
with_profile p k = record k { profile_id = p }

-- The status that two profiles have together: a denial wins, or else the loser's own status does, or
-- else the survivor's stays.
abbrev pub joined : Option String → Option String → Option String
joined none s = s
joined (some l) none = some l
joined (some l) (some s) = some (if l == denied then denied else if s == denied then denied else l)

-- All rows are of one profile.
OfProfile : ℕ → ℕ → List Consent → Type 0
OfProfile tenant p [] = Unit
OfProfile tenant p (r ∷ rs) = (of_profile tenant p r.key ≡ true) × OfProfile tenant p rs

rows_of-OfProfile :
    (tenant p : ℕ) (rows : List Consent) → OfProfile tenant p (rows_of tenant p rows)
unfolding OfProfile rows_of
rows_of-OfProfile tenant p [] = tt
rows_of-OfProfile tenant p (r ∷ rs) = elim (Bool-cases (of_profile tenant p r.key)) [
  | inl h ↦ rw h (h, rows_of-OfProfile tenant p rs)
  | inr h ↦ rw h (rows_of-OfProfile tenant p rs)
]

-- A row outside the profile has none of its keys.
same_key-of_profile :
    (tenant p : ℕ) (a k : Key)
    → of_profile tenant p k ≡ true
    → of_profile tenant p a ≡ false
    → same_key a k ≡ false
same_key-of_profile tenant p a k h n = elim (Bool-cases (same_key a k)) [
  | inr e ↦ e
  | inl e ↦ absurd (
      let h' : of_profile tenant p a ≡ true =
        subst (λ x. of_profile tenant p x ≡ true) (sym (same_key→eq a k e)) h in
      ground arith)
]

status_of-rows_of :
    (tenant p : ℕ) (k : Key) (rows : List Consent)
    → of_profile tenant p k ≡ true
    → status_of k (rows_of tenant p rows) ≡ status_of k rows
unfolding status_of rows_of
status_of-rows_of tenant p k [] h = refl
status_of-rows_of tenant p k (r ∷ rs) h = elim (Bool-cases (of_profile tenant p r.key)) [
  | inl e ↦ rw (e, status_of-rows_of tenant p k rs h) refl
  | inr e ↦ rw (e, same_key-of_profile tenant p r.key k h e) (status_of-rows_of tenant p k rs h)
]

status_of-rows_of-none :
    (tenant p : ℕ) (k : Key) (rows : List Consent)
    → status_of k rows ≡ none
    → status_of k (rows_of tenant p rows) ≡ none
unfolding status_of rows_of
status_of-rows_of-none tenant p k [] h = refl
status_of-rows_of-none tenant p k (r ∷ rs) h = elim (Bool-cases (same_key r.key k)) [
  | inl q ↦ absurd (ground arith)
  | inr q ↦ elim (Bool-cases (of_profile tenant p r.key)) [
    | inl e ↦ rw (e, q) (status_of-rows_of-none tenant p k rs (rw q at h))
    | inr e ↦ rw e (status_of-rows_of-none tenant p k rs (rw q at h))
  ]
]

rows_of-Unique : (tenant p : ℕ) (rows : List Consent) → Unique rows → Unique (rows_of tenant p rows)
unfolding Unique rows_of
rows_of-Unique tenant p [] u = tt
rows_of-Unique tenant p (r ∷ rs) (a, b) = elim (Bool-cases (of_profile tenant p r.key)) [
  | inl h ↦ rw h (status_of-rows_of-none tenant p r.key rs a, rows_of-Unique tenant p rs b)
  | inr h ↦ rw h (rows_of-Unique tenant p rs b)
]

if-none : (b : Bool) → ◌≡◌ {A = Option String} none (if b then none else none)
if-none true = refl
if-none false = refl

status_of-delete :
    (tenant p : ℕ) (k : Key) (rows : List Consent)
    → status_of k (delete_rows tenant p rows)
      ≡ (if of_profile tenant p k then none else status_of k rows)
unfolding status_of delete_rows
status_of-delete tenant p k [] = if-none (of_profile tenant p k)
status_of-delete tenant p k (r ∷ rs) = elim (Bool-cases (same_key r.key k)) [
  | inl h ↦
      let same : of_profile tenant p r.key ≡ of_profile tenant p k =
        ap (of_profile tenant p) (same_key→eq r.key k h) in
      elim (Bool-cases (of_profile tenant p k)) [
        | inl e ↦ rw (same, e, status_of-delete tenant p k rs, e) refl
        | inr e ↦ rw (same, e, h) refl
      ]
  | inr h ↦ elim (Bool-cases (of_profile tenant p r.key)) [
    | inl e ↦ rw (e, h) (status_of-delete tenant p k rs)
    | inr e ↦ rw (e, h) (status_of-delete tenant p k rs)
  ]
]

-- A row of the loser is moved to the key exactly when it is the loser's row of that key.
same_key-moved :
    (tenant loser : ℕ) (a k : Key)
    → of_profile tenant loser a ≡ true
    → same_key (with_profile k.profile_id a) k ≡ same_key a (with_profile loser k)
same_key-moved tenant loser a k h =
    let q : eqb a.profile_id loser ≡ true = ground arith in rw (q, eqb_refl k.profile_id) refl

upserted-joined :
    (l : String) (o : Option String) → upserted (denied_wins l) l o ≡ joined (some l) o
upserted-joined l none = refl
upserted-joined l (some s) = elim (Bool-cases (s == denied)) [
  | inl d ↦ elim (Bool-cases (l == denied)) [ inl e ↦ rw (d, e) refl | inr e ↦ rw (d, e) refl ]
  | inr d ↦ rw d refl
]

-- The loser's rows, one after the other.
status_of-merge_rows :
    (tenant loser : ℕ) (k : Key) (now : ℕ) (rs rows : List Consent)
    → OfProfile tenant loser rs
    → Unique rs
    → status_of k (merge_rows k.profile_id now rs rows)
      ≡ joined (status_of (with_profile loser k) rs) (status_of k rows)
unfolding OfProfile Unique merge_rows status_of
status_of-merge_rows tenant loser k now [] rows p u = refl
status_of-merge_rows tenant loser k now (r ∷ rs) rows (p, ps) (u, us) =
    let new = new_row (with_profile k.profile_id r.key) r.status r.source now in
    let rows' = upsert (denied_wins r.status) (λ old. old) new rows in
    let later = status_of-merge_rows tenant loser k now rs rows' ps us in
    let first = status_of-upsert (denied_wins r.status) (λ old. old) k new rows in
    elim (Bool-cases (same_key r.key (with_profile loser k))) [
      | inl h ↦
          let gone : status_of (with_profile loser k) rs ≡ none =
            subst (λ (x : Key). status_of x rs ≡ none) (same_key→eq r.key (with_profile loser k) h)
              u in
          later
          ∙ rw (gone, first, same_key-moved tenant loser r.key k p, h)
              (upserted-joined r.status (status_of k rows))
      | inr h ↦ later ∙ rw (first, same_key-moved tenant loser r.key k p, h) refl
    ]

-- The consents once the profile `loser` is folded into another: a key of the survivor has the denial
-- of either profile, or else the loser's own status, or else its status of before, and a key of the
-- loser has none. Keys are unique before.
pub reparent_consent-joined :
    (loser now : ℕ) (k : Key) (rows : List Consent)
    → Unique rows
    → eqb k.profile_id loser ≡ false
    → (status_of k (reparent_consent k.tenant_id loser k.profile_id now rows)
        ≡ joined (status_of (with_profile loser k) rows) (status_of k rows))
      × (status_of (with_profile loser k) (reparent_consent k.tenant_id loser k.profile_id now rows)
          ≡ none)
unfolding reparent_consent
reparent_consent-joined loser now k rows u n =
    let moved = rows_of k.tenant_id loser rows in
    let out : of_profile k.tenant_id loser k ≡ false = ground (arith, n, eqb_refl k.tenant_id) in
    let own : of_profile k.tenant_id loser (with_profile loser k) ≡ true =
      ground (arith, eqb_refl k.tenant_id, eqb_refl loser) in
    (
      rw (status_of-delete k.tenant_id loser k (merge_rows k.profile_id now moved rows), out)
          (status_of-merge_rows k.tenant_id loser k now moved rows
              (rows_of-OfProfile k.tenant_id loser rows) (rows_of-Unique k.tenant_id loser rows u)
            ∙ rw (status_of-rows_of k.tenant_id loser (with_profile loser k) rows own) refl),
      rw
          (
            status_of-delete k.tenant_id loser (with_profile loser k)
                (merge_rows k.profile_id now moved rows),
            own,
          )
          refl,
    )
