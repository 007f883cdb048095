-- ===== src/Auth/Handler/Revoked.antt =====
-- internal/auth/handler.go: a token that is revoked never authenticates again.
use osscdp.Prelude.{
  ℕ, String, ◌==◌, false, Option, some, List, [], ◌∷◌, Result, ok, err, is_ok, is_empty, get_elem?,
  ◌≡◌, refl, sym, ◌∙◌, inl, inr, Bool-cases, ok-injective,
}
use osscdp.Rbac.Roles.{Principal}
use osscdp.Rbac.Tokens.{Token}
use osscdp.Rbac.Tokens.Rows.{Sound}
use osscdp.Rbac.Tokens.Dead.{
  Dead, find_by_token_hash-Dead, create_token-Dead, revoke_token-Dead, revoke_token-makes_Dead,
  revoke_token-again,
}
use osscdp.Auth.Authorize.{AuthError, Env, authenticate_token, resolved}
use osscdp.Auth.Handler.{
  CreateRequest, Generated, AdminDb, Action, create_action, list_action, revoke_action, new_token,
  create, revoke, act, handle, parsed, found,
}
use osscdp.Auth.Handler.Scope.{create-parts, revoke-parts, handle-parts, served, handle_all}

some-injective : {a b : ℕ} → ◌≡◌ {A = Option ℕ} (some a) (some b) → a ≡ b
some-injective h = cc

module _ (env : Env) where
  create-Dead :
      (hash : String) (p : Principal) (body : Option CreateRequest) (gen : Generated)
      (db db' : AdminDb)
      → create env p body gen db ≡ ok db'
      → Dead hash db.tokens
      → Dead hash db'.tokens
  create-Dead hash p body gen db db' h d =
      let (r, tenant, tokens, t, i, e) = create-parts env p body gen db db' h in
      rw e (create_token-Dead hash env.tenants (new_token tenant r gen) db.tokens tokens i d)

  revoke-Dead :
      (hash : String) (p : Principal) (text : String) (db db' : AdminDb)
      → revoke env p text db ≡ ok db'
      → Dead hash db.tokens
      → Dead hash db'.tokens
  revoke-Dead hash p text db db' h d =
      let (id, target, tokens, i, t, b, r, e) = revoke-parts env p text db db' h in
      rw e (revoke_token-Dead hash id db.tokens tokens r d)

  act-Dead :
      (hash : String) (p : Principal) (action : Action) (db db' : AdminDb)
      → act env p action db ≡ ok db'
      → Dead hash db.tokens
      → Dead hash db'.tokens
  unfolding act
  act-Dead hash p (create_action body gen) db db' h d = create-Dead hash p body gen db db' h d
  act-Dead hash p list_action db db' h d = rw (sym (ok-injective h)) d
  act-Dead hash p (revoke_action text) db db' h d = revoke-Dead hash p text db db' h d

  served-Dead :
      (hash : String) (db : AdminDb) (r : Result AuthError AdminDb)
      → Dead hash db.tokens
      → ((db' : AdminDb) → r ≡ ok db' → Dead hash db'.tokens)
      → Dead hash (served db r).tokens
  served-Dead hash db (err e) d f = d
  served-Dead hash db (ok db') d f = f db' refl

  handle-Dead :
      (hash header : String) (action : Action) (db db' : AdminDb)
      → Dead hash db.tokens
      → handle env header action db ≡ ok db'
      → Dead hash db'.tokens
  handle-Dead hash header action db db' d h =
      let (p, a, k) = handle-parts env header action db db' h in act-Dead hash p action db db' k d

  handle_all-Dead :
      (hash : String) (rs : List (String × Action)) (db : AdminDb)
      → Dead hash db.tokens
      → Dead hash (handle_all env rs db).tokens
  unfolding handle_all
  handle_all-Dead hash [] db d = d
  handle_all-Dead hash ((header, action) ∷ rs) db d =
      handle_all-Dead hash rs (served db (handle env header action db)) (
        served-Dead hash db (handle env header action db) d
          (λ db' h. handle-Dead hash header action db db' d h))

  authenticate_token-Dead :
      (tok : String) (ts : List Token)
      → (tok == env.static_token) ≡ false
      → Dead (env.hash_token tok) ts
      → is_ok (authenticate_token env tok ts) ≡ false
  unfolding authenticate_token resolved
  authenticate_token-Dead tok ts n d = elim (Bool-cases (is_empty tok)) [
    | inl e ↦ rw e refl
    | inr e ↦ rw (e, n, find_by_token_hash-Dead (env.hash_token tok) ts d) refl
  ]

  -- After a token of the table was revoked by a request that succeeded, no text with the hash of that
  -- token authenticates, whatever requests follow; the configured token is another. The tokens are
  -- sound before.
  pub revoked_for_ever :
      (header text tok : String) (db db' : AdminDb) (j : ℕ) (t : Token)
      (later : List (String × Action))
      → Sound db.tokens
      → get_elem? db.tokens j ≡ some t
      → env.parse_uuid text ≡ some t.id
      → handle env header (revoke_action text) db ≡ ok db'
      → env.hash_token tok ≡ t.token_hash
      → (tok == env.static_token) ≡ false
      → is_ok (authenticate_token env tok (handle_all env later db').tokens) ≡ false
  unfolding act
  revoked_for_ever header text tok db db' j t later s e u h k n =
      let (p, a, q) = handle-parts env header (revoke_action text) db db' h in
      let (id, target, tokens, i, g, b, r, f) = revoke-parts env p text db db' q in
      let same : id ≡ t.id = some-injective (sym i ∙ u) in
      let dead : Dead (env.hash_token tok) db'.tokens =
        rw (f, k) (revoke_token-makes_Dead db.tokens tokens j t s e (rw same at r)) in
      authenticate_token-Dead tok (handle_all env later db').tokens n
        (handle_all-Dead (env.hash_token tok) later db' dead)

  -- A revocation that succeeded, made again by the same caller, answers that there is no such token.
  pub revoke-again :
      (p : Principal) (text : String) (db db' : AdminDb)
      → revoke env p text db ≡ ok db'
      → revoke env p text db' ≡ err AuthError.missing
  unfolding revoke parsed found
  revoke-again p text db db' h =
      let (id, target, tokens, i, g, b, r, f) = revoke-parts env p text db db' h in
      let (g', r') = revoke_token-again id db.tokens tokens r in rw (f, i, g' ∙ g, b, r') refl
