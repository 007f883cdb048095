-- ===== src/Auth/Handler.antt =====
-- internal/auth/handler.go: the handlers of admin tokens, behind Authenticate and Require.
pub mod Scope
pub mod Isolation
pub mod Revoked
mod Examples
use osscdp.Prelude.{
  ℕ, String, ◌==◌, Bool, true, false, not, ◌&&◌, ◌||◌, Option, none, some, List, [], ◌∷◌, ◌++◌,
  Result, ok, err, ◌>>=◌, ◌>>◌, refuse_if, eqb, if◌then◌else◌, is_empty,
}
use osscdp.Rbac.Roles.{Principal, role_super_admin, perm_admin_write, is_super_admin, valid_role}
use osscdp.Rbac.Tokens.{
  Token, TokenStatus, active, TokenSummary, TokenError, not_found, insert_failed, create_token,
  list_tokens, get_token_tenant, revoke_token,
}
use osscdp.Auth.Authorize.{
  AuthError, unauthorized, forbidden, bad_request, missing, internal, Env, bearer,
  authenticate_token, require,
}

-- createTokenRequest
pub record CreateRequest : Type 0 where
  pub name : String
  pub role : String
  pub tenant_id : String

-- What a creation draws from outside: the id of the row, the hash of the new token, the instant.
pub record Generated : Type 0 where
  pub id : ℕ
  pub token_hash : String
  pub now : ℕ

-- An entry of the audit log on a token.
pub data AuditEntry : Type 0 where
  token_created : Option ℕ → String → String → AuditEntry
  token_revoked : Option ℕ → ℕ → AuditEntry

pub record AdminDb : Type 0 where
  pub tokens : List Token
  pub audit : List AuditEntry

-- A request on tokens: the handler, with the body or the id of its path. A body that is no JSON is none.
pub data Action : Type 0 where
  create_action : Option CreateRequest → Generated → Action
  list_action : Action
  revoke_action : String → Action

unfoldable pub decoded : Option CreateRequest → Result AuthError CreateRequest
decoded none = err bad_request
decoded (some r) = ok r

unfoldable pub parsed : Option ℕ → Result AuthError ℕ
parsed none = err bad_request
parsed (some id) = ok id

unfoldable pub inserted : Result TokenError (List Token) → Result AuthError (List Token)
inserted (err e) = err internal
inserted (ok ts) = ok ts

unfoldable pub found : {A : Type 0} → Result TokenError A → Result AuthError A
found (err not_found) = err missing
found (err insert_failed) = err internal
found (ok a) = ok a

abbrev pub same_tenant : Option ℕ → Option ℕ → Bool
same_tenant none b = false
same_tenant (some a) none = false
same_tenant (some a) (some b) = eqb a b

unfoldable pub new_token : Option ℕ → CreateRequest → Generated → Token
new_token tenant r gen = record {
  id = gen.id;
  tenant_id = tenant;
  name = r.name;
  role = r.role;
  token_hash = gen.token_hash;
  status = active;
  created_at = gen.now;
}

module _ (env : Env) where
  -- The tenant of a new token.
  unfoldable pub token_tenant : Principal → CreateRequest → Result AuthError (Option ℕ)
  unfolding parsed
  token_tenant caller r =
      if is_super_admin caller
      then if r.role == role_super_admin
        then ok none
        else (do id ← parsed (env.parse_uuid r.tenant_id); ok (some id))
      else if r.role == role_super_admin
      then err forbidden
      else ok caller.tenant_id

  -- Create
  unfoldable pub create :
      Principal → Option CreateRequest → Generated → AdminDb → Result AuthError AdminDb
  unfolding decoded token_tenant inserted new_token
  create caller body gen db = do
    r ← decoded body
    refuse_if (is_empty r.name || not (valid_role r.role)) bad_request
    tenant ← token_tenant caller r
    tokens ← inserted (create_token env.tenants (new_token tenant r gen) db.tokens)
    ok (record { tokens = tokens; audit = db.audit ++ token_created tenant r.name r.role ∷ [] })

  -- List
  unfoldable pub list : Principal → AdminDb → List TokenSummary
  list caller db = list_tokens (if is_super_admin caller then none else caller.tenant_id) db.tokens

  -- Revoke
  unfoldable pub revoke : Principal → String → AdminDb → Result AuthError AdminDb
  unfolding parsed found
  revoke caller text db = do
    id ← parsed (env.parse_uuid text)
    target ← found (get_token_tenant id db.tokens)
    refuse_if (not (is_super_admin caller) && not (same_tenant target caller.tenant_id)) forbidden
    tokens ← found (revoke_token id db.tokens)
    ok (record { tokens = tokens; audit = db.audit ++ token_revoked target id ∷ [] })

  -- The handler of a request whose caller passed the middleware.
  unfoldable pub act : Principal → Action → AdminDb → Result AuthError AdminDb
  unfolding create revoke
  act caller (create_action body gen) db = create caller body gen db
  act caller list_action db = ok db
  act caller (revoke_action text) db = revoke caller text db

  -- A request with its Authorization header, through Authenticate and Require(admin:write).
  unfoldable pub handle : String → Action → AdminDb → Result AuthError AdminDb
  unfolding act
  handle header action db = do
    caller ← authenticate_token env (bearer header) db.tokens
    require env perm_admin_write caller ""
    act caller action db
