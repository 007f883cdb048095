-- ===== src/Auth/Authorize.antt =====
-- internal/auth/authenticate.go and authorize.go: who calls, and what the caller may do.
use osscdp.Prelude.{
  ℕ, String, ◌==◌, Bool, false, not, ◌&&◌, Option, none, some, List, Result, ok, err, ◌>>◌,
  refuse_if, if◌then◌else◌, is_empty, cut_prefix,
}
use osscdp.Runtime.Text.{trim_space}
use osscdp.Rbac.Roles.{Principal, role_super_admin, is_super_admin, can}
use osscdp.Rbac.Tokens.{Token, TokenError, find_by_token_hash}

-- The answers of package apierror that these handlers give.
pub data AuthError : Type 0 where
  unauthorized forbidden bad_request missing internal : AuthError

-- The configured token, the hash of tokens, the text of a UUID and its parser, and the tenants.
pub record Env : Type 0 where
  pub static_token : String
  pub hash_token : String → String
  pub uuid_text : ℕ → String
  pub parse_uuid : String → Option ℕ
  pub tenants : ℕ → Bool

abbrev or_same : String → Option String → String
or_same s none = s
or_same s (some rest) = rest

-- `bearer` of an Authorization header.
unfoldable pub bearer : String → String
unfolding trim_space
bearer header = trim_space (or_same header (cut_prefix header "Bearer "))

unfoldable pub resolved : Result TokenError Principal → Result AuthError Principal
resolved (err e) = err unauthorized
resolved (ok p) = ok p

abbrev super_principal : Principal
super_principal = record { role = role_super_admin; tenant_id = none }

module _ (env : Env) where
  -- Authenticate
  unfoldable pub authenticate_token : String → List Token → Result AuthError Principal
  unfolding resolved
  authenticate_token tok tokens =
      if is_empty tok
      then err unauthorized
      else if tok == env.static_token
      then ok super_principal
      else resolved (find_by_token_hash (env.hash_token tok) tokens)

  unfoldable pub is_own : Option ℕ → String → Bool
  is_own none tid = false
  is_own (some t) tid = env.uuid_text t == tid

  -- Require: the permission, and the tenant of the route where it names one.
  unfoldable pub require : String → Principal → String → Result AuthError (Unit {0})
  unfolding is_own
  require perm p tid = do
    refuse_if (not (can p perm)) forbidden
    refuse_if (not (is_super_admin p) && (not (is_empty tid) && not (is_own p.tenant_id tid)))
        forbidden

  -- RequireSuperAdmin
  unfoldable pub require_super_admin : Principal → Result AuthError (Unit {0})
  require_super_admin p = refuse_if (not (is_super_admin p)) forbidden
