-- ===== src/Rbac/Tokens/Tenant.antt =====
-- internal/rbac/repo.go: the tokens of one tenant.
use osscdp.Prelude.{
  ℕ, String, Bool, true, false, Option, none, some, List, [], ◌∷◌, ◌++◌, eqb, eqb→eq, if◌then◌else◌,
  ok, ◌≡◌, refl, subst, inl, inr, arith, Bool-cases, ok-injective,
}
use osscdp.Rbac.Tokens.{
  Token, is_taken, create_token, get_token_tenant, is_revocable, revoke_rows, revoke_token,
}
use osscdp.Rbac.Tokens.Rows.{Sound, create_token-ok, revoke_token-ok}

abbrev pub is_of : Option ℕ → Option ℕ → Bool
is_of none none = true
is_of none (some t) = false
is_of (some u) none = false
is_of (some u) (some t) = eqb u t

-- The tokens of one tenant; none is the tenant of the super-administrators.
unfoldable pub of_tenant : Option ℕ → List Token → List Token
of_tenant u [] = []
of_tenant u (t ∷ ts) = let rest = of_tenant u ts in if is_of u t.tenant_id then t ∷ rest else rest

-- Every row with this id is of this tenant.
Owned : ℕ → Option ℕ → List Token → Type 0
Owned id target [] = Unit
Owned id target (t ∷ ts) = (eqb t.id id ≡ true → t.tenant_id ≡ target) × Owned id target ts

untaken-Owned :
    (id : ℕ) (hash : String) (target : Option ℕ) (ts : List Token)
    → is_taken id hash ts ≡ false
    → Owned id target ts
unfolding is_taken Owned
untaken-Owned id hash target [] h = tt
untaken-Owned id hash target (t ∷ ts) h =
    (λ e. absurd (ground arith), untaken-Owned id hash target ts (ground arith))

get_token_tenant-Owned :
    (id : ℕ) (target : Option ℕ) (ts : List Token)
    → Sound ts
    → get_token_tenant id ts ≡ ok target
    → Owned id target ts
unfolding Sound get_token_tenant Owned
get_token_tenant-Owned id target [] s h = absurd (ground arith)
get_token_tenant-Owned id target (t ∷ ts) (a, b, c) h = elim (Bool-cases (eqb t.id id)) [
  | inl e ↦ (
    λ k. ok-injective (rw e at h),
    untaken-Owned id t.token_hash target ts
        (subst (λ (x : ℕ). is_taken x t.token_hash ts ≡ false) (eqb→eq t.id id e) b),
  )
  | inr e ↦ (λ k. absurd (ground arith), get_token_tenant-Owned id target ts c (rw e at h))
]

of_tenant-append :
    (u : Option ℕ) (ts : List Token) (t : Token)
    → is_of u t.tenant_id ≡ false
    → of_tenant u (ts ++ t ∷ []) ≡ of_tenant u ts
unfolding of_tenant
of_tenant-append u [] t h = rw h refl
of_tenant-append u (q ∷ ts) t h = rw (of_tenant-append u ts t h) refl

of_tenant-revoke_rows :
    (u : Option ℕ) (id : ℕ) (target : Option ℕ) (ts : List Token)
    → is_of u target ≡ false
    → Owned id target ts
    → of_tenant u (revoke_rows id ts) ≡ of_tenant u ts
unfolding of_tenant revoke_rows Owned
of_tenant-revoke_rows u id target [] h o = refl
of_tenant-revoke_rows u id target (t ∷ ts) h (a, b) = elim (Bool-cases (is_revocable id t)) [
  | inl e ↦
      let out : is_of u t.tenant_id ≡ false = rw (a (ground arith)) h in
      rw (e, out, of_tenant-revoke_rows u id target ts h b) refl
  | inr e ↦ rw (e, of_tenant-revoke_rows u id target ts h b) refl
]

pub of_tenant-create :
    (u : Option ℕ) (tenants : ℕ → Bool) (t : Token) (ts : List Token) (out : List Token)
    → create_token tenants t ts ≡ ok out
    → is_of u t.tenant_id ≡ false
    → of_tenant u out ≡ of_tenant u ts
of_tenant-create u tenants t ts out h n =
    rw (create_token-ok tenants t ts h).1 (of_tenant-append u ts t n)

pub of_tenant-revoke :
    (u : Option ℕ) (id : ℕ) (target : Option ℕ) (ts out : List Token)
    → Sound ts
    → get_token_tenant id ts ≡ ok target
    → revoke_token id ts ≡ ok out
    → is_of u target ≡ false
    → of_tenant u out ≡ of_tenant u ts
of_tenant-revoke u id target ts out s g h n =
    rw (revoke_token-ok id ts h)
      (of_tenant-revoke_rows u id target ts n (get_token_tenant-Owned id target ts s g))
