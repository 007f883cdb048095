-- ===== src/Rbac/Tokens/Rows.antt =====
-- internal/rbac/repo.go: what holds of all rows of admin_token, and what its statements do to it.
use osscdp.Prelude.{
  ℕ, String, ◌==◌, Bool, false, not, ◌&&◌, ◌||◌, Option, List, [], ◌∷◌, ◌++◌, eqb, ok, ◌≡◌, refl,
  sym, ◌∙◌, subst, inl, inr, arith, Bool-cases, eq_iff, ok-injective,
}
use osscdp.Rbac.Roles.{Principal, role_super_admin, is_none}
use osscdp.Rbac.Tokens.{
  Token, clashes, is_taken, create_token, exists, is_revocable, revoke_rows, any_revocable,
  revoke_token, is_bearer, find_by_token_hash,
}

-- A token is of no tenant exactly when its role is SUPER_ADMIN.
abbrev pub IsScoped : Option ℕ → String → Type 0
IsScoped tenant role = (role == role_super_admin) ≡ is_none tenant

-- Every token is scoped, and no two have the same id or the same hash.
unfoldable pub Sound : List Token → Type 0
Sound [] = Unit
Sound (t ∷ ts) = IsScoped t.tenant_id t.role × (is_taken t.id t.token_hash ts ≡ false) × Sound ts

eqb_sym : (a b : ℕ) → eqb a b ≡ eqb b a
eqb_sym a b = ground arith

pub same_text_sym : (s t : String) → (s == t) ≡ (t == s)
same_text_sym s t = elim (Bool-cases (s == t)) [
  | inl e ↦ e ∙ sym ((eq_iff t s).1 (sym ((eq_iff s t).0 e)))
  | inr e ↦ elim (Bool-cases (t == s)) [
    | inl k ↦ absurd (let k' = (eq_iff s t).1 (sym ((eq_iff t s).0 k)) in ground arith)
    | inr k ↦ e ∙ sym k
  ]
]

pub clashes_sym : (q t : Token) → clashes q.id q.token_hash t ≡ clashes t.id t.token_hash q
clashes_sym q t = rw (eqb_sym t.id q.id, same_text_sym t.token_hash q.token_hash) refl

is_taken-append :
    (id : ℕ) (hash : String) (ts : List Token) (t : Token)
    → is_taken id hash (ts ++ t ∷ []) ≡ (is_taken id hash ts || clashes id hash t)
unfolding is_taken
is_taken-append id hash [] t = ground arith
is_taken-append id hash (q ∷ ts) t = ground (arith, is_taken-append id hash ts t)

Sound-append :
    (ts : List Token) (t : Token)
    → Sound ts
    → IsScoped t.tenant_id t.role
    → is_taken t.id t.token_hash ts ≡ false
    → Sound (ts ++ t ∷ [])
unfolding Sound is_taken
Sound-append [] t s r n = (r, refl, tt)
Sound-append (q ∷ ts) t (a, b, c) r n = (
  a,
  is_taken-append q.id q.token_hash ts t ∙ rw (b, clashes_sym q t) (ground arith),
  Sound-append ts t c r (ground arith),
)

pub is_taken-revoke :
    (id : ℕ) (hash : String) (i : ℕ) (ts : List Token)
    → is_taken id hash (revoke_rows i ts) ≡ is_taken id hash ts
unfolding is_taken revoke_rows
is_taken-revoke id hash i [] = refl
is_taken-revoke id hash i (t ∷ ts) = elim (Bool-cases (is_revocable i t)) [
  | inl e ↦ rw (e, is_taken-revoke id hash i ts) refl
  | inr e ↦ rw (e, is_taken-revoke id hash i ts) refl
]

Sound-revoke : (i : ℕ) (ts : List Token) → Sound ts → Sound (revoke_rows i ts)
unfolding Sound revoke_rows
Sound-revoke i [] s = tt
Sound-revoke i (t ∷ ts) (a, b, c) = elim (Bool-cases (is_revocable i t)) [
  | inl e ↦ rw e (a, is_taken-revoke t.id t.token_hash i ts ∙ b, Sound-revoke i ts c)
  | inr e ↦ rw e (a, is_taken-revoke t.id t.token_hash i ts ∙ b, Sound-revoke i ts c)
]

pub create_token-ok :
    (tenants : ℕ → Bool) (t : Token) (ts : List Token) {out : List Token}
    → create_token tenants t ts ≡ ok out
    → (is_taken t.id t.token_hash ts ≡ false) × (out ≡ ts ++ t ∷ [])
unfolding create_token
create_token-ok tenants t ts h =
    elim (Bool-cases (not (is_taken t.id t.token_hash ts) && exists tenants t.tenant_id)) [
      | inl e ↦ (ground (arith, e), sym (ok-injective (rw e at h)))
      | inr e ↦ absurd (ground (arith, e, h))
    ]

pub revoke_token-ok :
    (i : ℕ) (ts : List Token) {out : List Token}
    → revoke_token i ts ≡ ok out
    → out ≡ revoke_rows i ts
unfolding revoke_token
revoke_token-ok i ts h = elim (Bool-cases (any_revocable i ts)) [
  | inl e ↦ sym (ok-injective (rw e at h))
  | inr e ↦ absurd (ground (arith, e, h))
]

pub create_token-Sound :
    (tenants : ℕ → Bool) (t : Token) (ts out : List Token)
    → create_token tenants t ts ≡ ok out
    → IsScoped t.tenant_id t.role
    → Sound ts
    → Sound out
create_token-Sound tenants t ts out h r s =
    let (n, e) = create_token-ok tenants t ts h in rw e (Sound-append ts t s r n)

pub revoke_token-Sound :
    (i : ℕ) (ts out : List Token) → revoke_token i ts ≡ ok out → Sound ts → Sound out
revoke_token-Sound i ts out h s = rw (revoke_token-ok i ts h) (Sound-revoke i ts s)

-- The principal of a token is scoped as the token is.
pub find_by_token_hash-IsScoped :
    (hash : String) (ts : List Token) (p : Principal)
    → Sound ts
    → find_by_token_hash hash ts ≡ ok p
    → IsScoped p.tenant_id p.role
unfolding Sound find_by_token_hash
find_by_token_hash-IsScoped hash [] p s h = absurd (ground arith)
find_by_token_hash-IsScoped hash (t ∷ ts) p (a, b, c) h = elim (Bool-cases (is_bearer hash t)) [
  | inl e ↦ subst (λ (q : Principal). IsScoped q.tenant_id q.role) (ok-injective (rw e at h)) a
  | inr e ↦ find_by_token_hash-IsScoped hash ts p c (rw e at h)
]
