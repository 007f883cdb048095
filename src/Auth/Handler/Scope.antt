-- ===== src/Auth/Handler/Scope.antt =====
-- internal/auth/handler.go: which tokens a caller can make or revoke.
use osscdp.Prelude.{
  ℕ, String, ◌==◌, false, not, ◌&&◌, ◌||◌, Option, none, some, List, [], ◌∷◌, Result, ok, err,
  is_empty, ◌≡◌, refl, sym, ap, ◌∙◌, subst, inl, inr, arith, Bool-cases, ok-injective, >>=-eq-ok,
  refuse_if-eq-ok,
}
use osscdp.Rbac.Roles.{
  Principal, role_super_admin, perm_admin_write, is_super_admin, is_none, valid_role,
}
use osscdp.Rbac.Tokens.{Token, TokenError, create_token, get_token_tenant, revoke_token}
use osscdp.Rbac.Tokens.Rows.{
  IsScoped, Sound, create_token-Sound, revoke_token-Sound, find_by_token_hash-IsScoped,
}
use osscdp.Auth.Authorize.{AuthError, Env, authenticate_token, bearer, require, resolved}
use osscdp.Auth.Handler.{
  CreateRequest, Generated, AdminDb, Action, create_action, list_action, revoke_action, decoded,
  inserted, found, parsed, new_token, same_tenant, token_tenant, create, revoke, act, handle,
}

inserted-ok :
    (r : Result TokenError (List Token)) {ts : List Token} → inserted r ≡ ok ts → r ≡ ok ts
unfolding inserted
inserted-ok (err e) h = absurd (ground arith)
inserted-ok (ok ts) h = ap ok (ok-injective h)

found-ok : {A : Type 0} (r : Result TokenError A) {a : A} → found r ≡ ok a → r ≡ ok a
unfolding found
found-ok (err TokenError.not_found) h = absurd (ground arith)
found-ok (err TokenError.insert_failed) h = absurd (ground arith)
found-ok (ok a) h = ap ok (ok-injective h)

resolved-ok : (r : Result TokenError Principal) {p : Principal} → resolved r ≡ ok p → r ≡ ok p
unfolding resolved
resolved-ok (err e) h = absurd (ground arith)
resolved-ok (ok p) h = ap ok (ok-injective h)

parsed-ok : (o : Option ℕ) {id : ℕ} → parsed o ≡ ok id → o ≡ some id
unfolding parsed
parsed-ok none h = absurd (ground arith)
parsed-ok (some id) h = ap some (ok-injective h)

not-super : (p : Principal) → is_super_admin p ≡ false → false ≡ is_none p.tenant_id
not-super p e = ground (arith, e)

module _ (env : Env) where
  pub authenticate_token-IsScoped :
      (tok : String) (ts : List Token) (p : Principal)
      → Sound ts
      → authenticate_token env tok ts ≡ ok p
      → IsScoped p.tenant_id p.role
  unfolding authenticate_token
  authenticate_token-IsScoped tok ts p s h = elim (Bool-cases (is_empty tok)) [
    | inl e ↦ absurd (ground (arith, e, h))
    | inr e ↦ elim (Bool-cases (tok == env.static_token)) [
      | inl k ↦
          subst (λ (q : Principal). IsScoped q.tenant_id q.role) (ok-injective (rw (e, k) at h))
            refl
      | inr k ↦
          find_by_token_hash-IsScoped (env.hash_token tok) ts p s (resolved-ok _ (rw (e, k) at h))
    ]
  ]

  token_tenant-IsScoped :
      (p : Principal) (r : CreateRequest) (tenant : Option ℕ)
      → IsScoped p.tenant_id p.role
      → token_tenant env p r ≡ ok tenant
      → IsScoped tenant r.role
  unfolding token_tenant parsed
  token_tenant-IsScoped p r tenant s h = elim (Bool-cases (is_super_admin p)) [
    | inl e ↦ elim (Bool-cases (r.role == role_super_admin)) [
      | inl k ↦ rw k (ap is_none (ok-injective (rw (e, k) at h)))
      | inr k ↦
          let (id, i, j) = >>=-eq-ok (parsed (env.parse_uuid r.tenant_id)) _ (rw (e, k) at h) in
          rw k (ap is_none (ok-injective j))
    ]
    | inr e ↦ elim (Bool-cases (r.role == role_super_admin)) [
      | inl k ↦ absurd (ground (arith, e, k, h))
      | inr k ↦ k ∙ not-super p e ∙ ap is_none (ok-injective (rw (e, k) at h))
    ]
  ]

  pub create-parts :
      (p : Principal) (body : Option CreateRequest) (gen : Generated) (db db' : AdminDb)
      → create env p body gen db ≡ ok db'
      → (r : CreateRequest) × (tenant : Option ℕ) × (tokens : List Token) × (token_tenant env p r
          ≡ ok tenant)
        × (create_token env.tenants (new_token tenant r gen) db.tokens ≡ ok tokens)
        × (db'.tokens ≡ tokens)
  unfolding create
  create-parts p body gen db db' h =
      let (r, a, h1) = >>=-eq-ok (decoded body) _ h in
      let (b, h2) =
        refuse_if-eq-ok (is_empty r.name || not (valid_role r.role)) AuthError.bad_request _ h1 in
      let (tenant, t, h3) = >>=-eq-ok (token_tenant env p r) _ h2 in
      let (tokens, i, h4) =
        >>=-eq-ok (inserted (create_token env.tenants (new_token tenant r gen) db.tokens)) _ h3 in
      (
        r,
        tenant,
        tokens,
        t,
        inserted-ok _ i,
        ap (λ (d : AdminDb). d.tokens) (sym (ok-injective h4)),
      )

  create-Sound :
      (p : Principal) (body : Option CreateRequest) (gen : Generated) (db db' : AdminDb)
      → IsScoped p.tenant_id p.role
      → Sound db.tokens
      → create env p body gen db ≡ ok db'
      → Sound db'.tokens
  unfolding new_token
  create-Sound p body gen db db' c s h =
      let (r, tenant, tokens, t, i, e) = create-parts p body gen db db' h in
      rw e (
        create_token-Sound env.tenants (new_token tenant r gen) db.tokens tokens i
          (token_tenant-IsScoped p r tenant c t) s)

  pub revoke-parts :
      (p : Principal) (text : String) (db db' : AdminDb)
      → revoke env p text db ≡ ok db'
      → (id : ℕ) × (target : Option ℕ) × (tokens : List Token) × (env.parse_uuid text ≡ some id)
        × (get_token_tenant id db.tokens ≡ ok target)
        × ((not (is_super_admin p) && not (same_tenant target p.tenant_id)) ≡ false)
        × (revoke_token id db.tokens ≡ ok tokens)
        × (db'.tokens ≡ tokens)
  unfolding revoke
  revoke-parts p text db db' h =
      let (id, i, h1) = >>=-eq-ok (parsed (env.parse_uuid text)) _ h in
      let (target, t, h2) = >>=-eq-ok (found (get_token_tenant id db.tokens)) _ h1 in
      let (b, h3) =
        refuse_if-eq-ok (not (is_super_admin p) && not (same_tenant target p.tenant_id))
          AuthError.forbidden _ h2 in
      let (tokens, r, h4) = >>=-eq-ok (found (revoke_token id db.tokens)) _ h3 in
      (
        id,
        target,
        tokens,
        parsed-ok (env.parse_uuid text) i,
        found-ok (get_token_tenant id db.tokens) t,
        b,
        found-ok (revoke_token id db.tokens) r,
        ap (λ (d : AdminDb). d.tokens) (sym (ok-injective h4)),
      )

  revoke-Sound :
      (p : Principal) (text : String) (db db' : AdminDb)
      → Sound db.tokens
      → revoke env p text db ≡ ok db'
      → Sound db'.tokens
  revoke-Sound p text db db' s h =
      let (id, target, tokens, i, t, b, r, e) = revoke-parts p text db db' h in
      rw e (revoke_token-Sound id db.tokens tokens r s)

  act-Sound :
      (p : Principal) (action : Action) (db db' : AdminDb)
      → IsScoped p.tenant_id p.role
      → Sound db.tokens
      → act env p action db ≡ ok db'
      → Sound db'.tokens
  unfolding act
  act-Sound p (create_action body gen) db db' c s h = create-Sound p body gen db db' c s h
  act-Sound p list_action db db' c s h = rw (sym (ok-injective h)) s
  act-Sound p (revoke_action text) db db' c s h = revoke-Sound p text db db' s h

  -- Who calls, and what the handler then does.
  pub handle-parts :
      (header : String) (action : Action) (db db' : AdminDb)
      → handle env header action db ≡ ok db'
      → (p : Principal) × (authenticate_token env (bearer header) db.tokens ≡ ok p)
        × (act env p action db ≡ ok db')
  unfolding handle
  handle-parts header action db db' h =
      let (p, a, h1) = >>=-eq-ok (authenticate_token env (bearer header) db.tokens) _ h in
      let (u, b, h2) = >>=-eq-ok (require env perm_admin_write p "") _ h1 in (p, a, h2)

  handle-Sound :
      (header : String) (action : Action) (db db' : AdminDb)
      → Sound db.tokens
      → handle env header action db ≡ ok db'
      → Sound db'.tokens
  handle-Sound header action db db' s h =
      let (p, a, k) = handle-parts header action db db' h in
      act-Sound p action db db' (authenticate_token-IsScoped (bearer header) db.tokens p s a) s k

abbrev pub served : AdminDb → Result AuthError AdminDb → AdminDb
served db (err e) = db
served db (ok db') = db'

-- The database after these requests, in order; a request that is refused changes nothing.
unfoldable pub handle_all : Env → List (String × Action) → AdminDb → AdminDb
handle_all env [] db = db
handle_all env ((header, action) ∷ rs) db =
    handle_all env rs (served db (handle env header action db))

module _ (env : Env) where
  served-Sound :
      (db : AdminDb) (r : Result AuthError AdminDb)
      → Sound db.tokens
      → ((db' : AdminDb) → r ≡ ok db' → Sound db'.tokens)
      → Sound (served db r).tokens
  served-Sound db (err e) s f = s
  served-Sound db (ok db') s f = f db' refl

  -- Whatever requests come, with whatever tokens: if at first every token is without a tenant exactly
  -- when its role is SUPER_ADMIN, and no two share an id or a hash, then so it is afterwards.
  pub handle_all-Sound :
      (rs : List (String × Action)) (db : AdminDb)
      → Sound db.tokens
      → Sound (handle_all env rs db).tokens
  unfolding handle_all
  handle_all-Sound [] db s = s
  handle_all-Sound ((header, action) ∷ rs) db s =
      handle_all-Sound rs (served db (handle env header action db)) (
        served-Sound db (handle env header action db) s
          (λ db' h. handle-Sound env header action db db' s h))
