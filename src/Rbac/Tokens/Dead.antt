-- ===== src/Rbac/Tokens/Dead.antt =====
-- internal/rbac/repo.go: a token that is revoked stays so, since its hash is never given again.
use osscdp.Prelude.{
  ℕ, zero, suc, String, ◌==◌, Bool, true, false, ◌||◌, some, List, [], ◌∷◌, ◌++◌, eqb_refl, ok, err,
  get_elem?, ◌≡◌, refl, sym, ◌∙◌, subst, inl, inr, arith, Bool-cases, eq_iff,
}
use osscdp.Rbac.Tokens.{
  Token, not_found, any_revocable, get_token_tenant, is_active, is_taken, create_token,
  is_revocable, revoke_rows, revoke_token, is_bearer, find_by_token_hash,
}
use osscdp.Rbac.Tokens.Rows.{Sound, same_text_sym, create_token-ok, revoke_token-ok}

has_hash : String → List Token → Bool
has_hash hash [] = false
has_hash hash (t ∷ ts) = t.token_hash == hash || has_hash hash ts

-- No row with this hash is active.
AllRevoked : String → List Token → Type 0
AllRevoked hash [] = Unit
AllRevoked hash (t ∷ ts) =
    ((t.token_hash == hash) ≡ true → is_active t.status ≡ false) × AllRevoked hash ts

-- The hash is given, and no token with it is active.
pub Dead : String → List Token → Type 0
unfolding has_hash AllRevoked
Dead hash ts = (has_hash hash ts ≡ true) × AllRevoked hash ts

find_by_token_hash-AllRevoked :
    (hash : String) (ts : List Token)
    → AllRevoked hash ts
    → find_by_token_hash hash ts ≡ err not_found
unfolding AllRevoked find_by_token_hash
find_by_token_hash-AllRevoked hash [] a = refl
find_by_token_hash-AllRevoked hash (t ∷ ts) (a, b) = elim (Bool-cases (is_bearer hash t)) [
  | inl e ↦ absurd (let k = a (ground arith) in ground arith)
  | inr e ↦ rw e (find_by_token_hash-AllRevoked hash ts b)
]

pub find_by_token_hash-Dead :
    (hash : String) (ts : List Token) → Dead hash ts → find_by_token_hash hash ts ≡ err not_found
unfolding Dead
find_by_token_hash-Dead hash ts d = find_by_token_hash-AllRevoked hash ts d.1

has_hash-is_taken :
    (id : ℕ) (hash : String) (ts : List Token)
    → has_hash hash ts ≡ true
    → is_taken id hash ts ≡ true
unfolding has_hash is_taken
has_hash-is_taken id hash [] h = absurd (ground arith)
has_hash-is_taken id hash (t ∷ ts) h = elim (Bool-cases (t.token_hash == hash)) [
  | inl e ↦ rw e (ground arith)
  | inr e ↦ rw (has_hash-is_taken id hash ts (rw e at h)) (ground arith)
]

has_hash-append :
    (hash : String) (ts : List Token) (t : Token)
    → has_hash hash ts ≡ true
    → has_hash hash (ts ++ t ∷ []) ≡ true
unfolding has_hash
has_hash-append hash [] t h = absurd (ground arith)
has_hash-append hash (q ∷ ts) t h = elim (Bool-cases (q.token_hash == hash)) [
  | inl e ↦ rw e refl
  | inr e ↦ rw e (has_hash-append hash ts t (rw e at h))
]

AllRevoked-append :
    (hash : String) (ts : List Token) (t : Token)
    → (t.token_hash == hash) ≡ false
    → AllRevoked hash ts
    → AllRevoked hash (ts ++ t ∷ [])
unfolding AllRevoked
AllRevoked-append hash [] t n a = (λ e. absurd (ground arith), tt)
AllRevoked-append hash (q ∷ ts) t n (a, b) = (a, AllRevoked-append hash ts t n b)

pub create_token-Dead :
    (hash : String) (tenants : ℕ → Bool) (t : Token) (ts out : List Token)
    → create_token tenants t ts ≡ ok out
    → Dead hash ts
    → Dead hash out
unfolding Dead
create_token-Dead hash tenants t ts out h (a, b) =
    let (n, e) = create_token-ok tenants t ts h in
    elim (Bool-cases (t.token_hash == hash)) [
      | inl k ↦ absurd (
          let q = (eq_iff t.token_hash hash).0 k in
          let m =
            has_hash-is_taken t.id t.token_hash ts
              (subst (λ (x : String). has_hash x ts ≡ true) (sym q) a) in
          ground arith)
      | inr k ↦ rw e (has_hash-append hash ts t a, AllRevoked-append hash ts t k b)
    ]

has_hash-revoke :
    (hash : String) (id : ℕ) (ts : List Token)
    → has_hash hash (revoke_rows id ts) ≡ has_hash hash ts
unfolding has_hash revoke_rows
has_hash-revoke hash id [] = refl
has_hash-revoke hash id (t ∷ ts) = elim (Bool-cases (is_revocable id t)) [
  | inl e ↦ rw (e, has_hash-revoke hash id ts) refl
  | inr e ↦ rw (e, has_hash-revoke hash id ts) refl
]

AllRevoked-revoke :
    (hash : String) (id : ℕ) (ts : List Token)
    → AllRevoked hash ts
    → AllRevoked hash (revoke_rows id ts)
unfolding AllRevoked revoke_rows
AllRevoked-revoke hash id [] a = tt
AllRevoked-revoke hash id (t ∷ ts) (a, b) = elim (Bool-cases (is_revocable id t)) [
  | inl e ↦ rw e (λ k. refl, AllRevoked-revoke hash id ts b)
  | inr e ↦ rw e (a, AllRevoked-revoke hash id ts b)
]

pub revoke_token-Dead :
    (hash : String) (id : ℕ) (ts out : List Token)
    → revoke_token id ts ≡ ok out
    → Dead hash ts
    → Dead hash out
unfolding Dead
revoke_token-Dead hash id ts out h (a, b) =
    rw (revoke_token-ok id ts h) (has_hash-revoke hash id ts ∙ a, AllRevoked-revoke hash id ts b)

some-injective : {a b : Token} → some a ≡ some b → a ≡ b
some-injective h = cc

untaken-AllRevoked :
    (id : ℕ) (hash : String) (ts : List Token) → is_taken id hash ts ≡ false → AllRevoked hash ts
unfolding is_taken AllRevoked
untaken-AllRevoked id hash [] h = tt
untaken-AllRevoked id hash (t ∷ ts) h =
    (λ e. absurd (ground arith), untaken-AllRevoked id hash ts (ground arith))

-- A row among those that a token does not clash with has another hash.
other_hash :
    (id : ℕ) (hash : String) (ts : List Token) (j : ℕ) {t : Token}
    → is_taken id hash ts ≡ false
    → get_elem? ts j ≡ some t
    → (t.token_hash == hash) ≡ false
unfolding is_taken
other_hash id hash [] j h e = absurd (ground arith)
other_hash id hash (q ∷ ts) zero {t} h e =
    subst (λ (x : Token). (x.token_hash == hash) ≡ false) (some-injective e) (ground arith)
other_hash id hash (q ∷ ts) (suc j) h e = other_hash id hash ts j (ground arith) e

head-Dead :
    (q : Token) (ts : List Token)
    → is_taken q.id q.token_hash ts ≡ false
    → Dead q.token_hash (revoke_rows q.id (q ∷ ts))
unfolding Dead revoke_rows has_hash AllRevoked
head-Dead q ts b =
    let later =
      AllRevoked-revoke q.token_hash q.id ts (untaken-AllRevoked q.id q.token_hash ts b) in
    let same = (eq_iff q.token_hash q.token_hash).1 refl in
    elim (Bool-cases (is_revocable q.id q)) [
      | inl e ↦ rw e (rw same refl, (λ k. refl, later))
      | inr e ↦ rw e (rw same refl, (λ k. ground (arith, eqb_refl q.id), later))
    ]

revoke_rows-Dead :
    (ts : List Token) (j : ℕ) (t : Token)
    → Sound ts
    → get_elem? ts j ≡ some t
    → Dead t.token_hash (revoke_rows t.id ts)
unfolding Dead Sound revoke_rows has_hash AllRevoked
revoke_rows-Dead [] j t s e = absurd (ground arith)
revoke_rows-Dead (q ∷ ts) zero t (a, b, c) e =
    subst (λ (x : Token). Dead x.token_hash (revoke_rows x.id (q ∷ ts))) (some-injective e)
      (head-Dead q ts b)
revoke_rows-Dead (q ∷ ts) (suc j) t (a, b, c) e =
    let other = same_text_sym q.token_hash t.token_hash ∙ other_hash q.id q.token_hash ts j b e in
    let (x, y) = revoke_rows-Dead ts j t c e in
    elim (Bool-cases (is_revocable t.id q)) [
      | inl k ↦ rw k (rw (other, x) (ground arith), (λ z. refl, y))
      | inr k ↦ rw k (rw (other, x) (ground arith), (λ z. absurd (ground arith), y))
    ]

pub revoke_token-makes_Dead :
    (ts out : List Token) (j : ℕ) (t : Token)
    → Sound ts
    → get_elem? ts j ≡ some t
    → revoke_token t.id ts ≡ ok out
    → Dead t.token_hash out
revoke_token-makes_Dead ts out j t s e h =
    rw (revoke_token-ok t.id ts h) (revoke_rows-Dead ts j t s e)

get_token_tenant-revoke_rows :
    (i id : ℕ) (ts : List Token) → get_token_tenant i (revoke_rows id ts) ≡ get_token_tenant i ts
unfolding get_token_tenant revoke_rows
get_token_tenant-revoke_rows i id [] = refl
get_token_tenant-revoke_rows i id (t ∷ ts) = elim (Bool-cases (is_revocable id t)) [
  | inl e ↦ rw (e, get_token_tenant-revoke_rows i id ts) refl
  | inr e ↦ rw (e, get_token_tenant-revoke_rows i id ts) refl
]

any_revocable-revoke_rows :
    (id : ℕ) (ts : List Token) → any_revocable id (revoke_rows id ts) ≡ false
unfolding any_revocable revoke_rows
any_revocable-revoke_rows id [] = refl
any_revocable-revoke_rows id (t ∷ ts) = elim (Bool-cases (is_revocable id t)) [
  | inl e ↦ rw (e, any_revocable-revoke_rows id ts) (ground arith)
  | inr e ↦ rw (e, any_revocable-revoke_rows id ts, e) refl
]

-- A second revocation of one id finds its tenant, and no row to revoke.
pub revoke_token-again :
    (id : ℕ) (ts out : List Token)
    → revoke_token id ts ≡ ok out
    → (get_token_tenant id out ≡ get_token_tenant id ts) × (revoke_token id out ≡ err not_found)
unfolding revoke_token
revoke_token-again id ts out h =
    rw (revoke_token-ok id ts h)
      (get_token_tenant-revoke_rows id id ts, rw (any_revocable-revoke_rows id ts) refl)
