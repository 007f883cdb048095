-- ===== src/Auth/Handler/Isolation.antt =====
-- internal/auth/handler.go: a caller of one tenant leaves the tokens of all others alone.
use osscdp.Prelude.{
  ℕ, String, ◌==◌, true, false, Option, none, some, eqb→eq, ok, ◌≡◌, refl, sym, ap, ◌∙◌, subst, inl,
  inr, arith, Bool-cases, ok-injective,
}
use osscdp.Rbac.Roles.{Principal, role_super_admin, is_super_admin}
use osscdp.Rbac.Tokens.Rows.{Sound}
use osscdp.Rbac.Tokens.Tenant.{is_of, of_tenant, of_tenant-create, of_tenant-revoke}
use osscdp.Auth.Authorize.{Env, authenticate_token, bearer}
use osscdp.Auth.Handler.{
  CreateRequest, Generated, AdminDb, Action, create_action, list_action, revoke_action, new_token,
  same_tenant, token_tenant, create, revoke, act, handle,
}
use osscdp.Auth.Handler.Scope.{create-parts, revoke-parts, handle-parts}

same_tenant-is_of : (u a b : Option ℕ) → same_tenant a b ≡ true → is_of u a ≡ is_of u b
same_tenant-is_of u none b h = absurd (ground arith)
same_tenant-is_of u (some a) none h = absurd (ground arith)
same_tenant-is_of u (some a) (some b) h = rw (eqb→eq a b h) refl

module _ (env : Env) (p : Principal) (plain : is_super_admin p ≡ false) where
  token_tenant-own :
      (r : CreateRequest) (tenant : Option ℕ)
      → token_tenant env p r ≡ ok tenant
      → tenant ≡ p.tenant_id
  unfolding token_tenant
  token_tenant-own r tenant h = elim (Bool-cases (r.role == role_super_admin)) [
    | inl k ↦ absurd (ground (arith, plain, k, h))
    | inr k ↦ sym (ok-injective (rw (plain, k) at h))
  ]

  create-of_tenant :
      (body : Option CreateRequest) (gen : Generated) (db db' : AdminDb) (u : Option ℕ)
      → is_of u p.tenant_id ≡ false
      → create env p body gen db ≡ ok db'
      → of_tenant u db'.tokens ≡ of_tenant u db.tokens
  unfolding new_token
  create-of_tenant body gen db db' u n h =
      let (r, tenant, tokens, t, i, e) = create-parts env p body gen db db' h in
      let other : is_of u tenant ≡ false = rw (token_tenant-own r tenant t) n in
      rw e (of_tenant-create u env.tenants (new_token tenant r gen) db.tokens tokens i other)

  revoke-of_tenant :
      (text : String) (db db' : AdminDb) (u : Option ℕ)
      → Sound db.tokens
      → is_of u p.tenant_id ≡ false
      → revoke env p text db ≡ ok db'
      → of_tenant u db'.tokens ≡ of_tenant u db.tokens
  revoke-of_tenant text db db' u s n h =
      let (id, target, tokens, i, t, b, r, e) = revoke-parts env p text db db' h in
      let same : same_tenant target p.tenant_id ≡ true = ground (arith, plain, b) in
      rw e (
        of_tenant-revoke u id target db.tokens tokens s t r
          (same_tenant-is_of u target p.tenant_id same ∙ n))

  act-of_tenant :
      (action : Action) (db db' : AdminDb) (u : Option ℕ)
      → Sound db.tokens
      → is_of u p.tenant_id ≡ false
      → act env p action db ≡ ok db'
      → of_tenant u db'.tokens ≡ of_tenant u db.tokens
  unfolding act
  act-of_tenant (create_action body gen) db db' u s n h = create-of_tenant body gen db db' u n h
  act-of_tenant list_action db db' u s n h =
      ap (λ (d : AdminDb). of_tenant u d.tokens) (sym (ok-injective h))
  act-of_tenant (revoke_action text) db db' u s n h = revoke-of_tenant text db db' u s n h

-- A request whose caller is no super-administrator changes no token of any tenant but the caller's
-- own, and none of the tokens without a tenant, which are those of the super-administrators; here
-- the tokens are sound before.
pub handle-of_tenant :
    (env : Env) (header : String) (action : Action) (db db' : AdminDb) (p : Principal)
    (u : Option ℕ)
    → Sound db.tokens
    → authenticate_token env (bearer header) db.tokens ≡ ok p
    → is_super_admin p ≡ false
    → handle env header action db ≡ ok db'
    → is_of u p.tenant_id ≡ false
    → of_tenant u db'.tokens ≡ of_tenant u db.tokens
handle-of_tenant env header action db db' p u s a plain h n =
    let (q, b, k) = handle-parts env header action db db' h in
    let same : q ≡ p = ok-injective (sym b ∙ a) in
    act-of_tenant env p plain action db db' u s n
      (subst (λ (x : Principal). act env x action db ≡ ok db') same k)
