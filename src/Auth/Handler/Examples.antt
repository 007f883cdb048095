-- ===== src/Auth/Handler/Examples.antt =====
-- A tenant's administrator, a token of the same tenant, and a token of another.
use osscdp.Prelude.{
  ℕ, String, true, false, Option, some, [], ◌∷◌, ok, err, is_ok, cut_prefix, ◌≡◌, refl,
}
use osscdp.Runtime.Text.{trim_space, trim_left, trim_right}
use osscdp.Rbac.Roles.{Principal, role_perms, has, can}
use osscdp.Rbac.Tokens.{
  Token, active, revoked, is_taken, get_token_tenant, revoke_rows, any_revocable, revoke_token,
  find_by_token_hash,
}
use osscdp.Rbac.Tokens.Rows.{Sound}
use osscdp.Rbac.Tokens.Tenant.{of_tenant}
use osscdp.Auth.Authorize.{missing, Env, bearer, authenticate_token, resolved, is_own, require}
use osscdp.Auth.Handler.{AdminDb, revoke_action, token_revoked, found, parsed, revoke, act, handle}
use osscdp.Auth.Handler.Scope.{handle_all, handle_all-Sound}
use osscdp.Auth.Handler.Isolation.{handle-of_tenant}
use osscdp.Auth.Handler.Revoked.{revoked_for_ever, revoke-again}

abbrev env : Env
env = record {
  static_token = "root";
  hash_token = λ s. s;
  uuid_text = λ n. "7";
  parse_uuid = λ s. some 2;
  tenants = λ n. true;
}

abbrev token : ℕ → Option ℕ → String → String → Token
token id tenant role hash = record {
  id = id;
  tenant_id = tenant;
  name = "n";
  role = role;
  token_hash = hash;
  status = active;
  created_at = 0;
}

abbrev victim : Token
victim = token 2 (some 7) "VIEWER" "b"

abbrev db : AdminDb
db = record {
  tokens = token 1 (some 7) "TENANT_ADMIN" "a" ∷ victim ∷ token 3 (some 8) "VIEWER" "c" ∷ [];
  audit = [];
}

abbrev revoked_db : AdminDb
revoked_db = record {
  tokens =
      token 1 (some 7) "TENANT_ADMIN" "a"
      ∷ record victim { status = revoked }
      ∷ token 3 (some 8) "VIEWER" "c"
      ∷ [];
  audit = token_revoked (some 7) 2 ∷ [];
}

abbrev caller : Principal
caller = record { role = "TENANT_ADMIN"; tenant_id = some 7 }

db-Sound : Sound db.tokens
unfolding Sound is_taken
db-Sound = (refl, refl, (refl, refl, (refl, refl, tt)))

authenticated : authenticate_token env (bearer "Bearer a") db.tokens ≡ ok caller
unfolding authenticate_token bearer trim_space trim_left trim_right resolved find_by_token_hash
    cut_prefix
authenticated = refl

revokes : handle env "Bearer a" (revoke_action "2") db ≡ ok revoked_db
unfolding handle authenticate_token bearer trim_space trim_left trim_right resolved
    find_by_token_hash cut_prefix require is_own can has role_perms act revoke parsed found
    get_token_tenant revoke_token revoke_rows any_revocable
revokes = refl

handle_all-Sound_example : Sound (handle_all env (("Bearer a", revoke_action "2") ∷ []) db).tokens
handle_all-Sound_example = handle_all-Sound env (("Bearer a", revoke_action "2") ∷ []) db db-Sound

handle-of_tenant_example : of_tenant (some 8) revoked_db.tokens ≡ of_tenant (some 8) db.tokens
handle-of_tenant_example =
    handle-of_tenant env "Bearer a" (revoke_action "2") db revoked_db caller (some 8) db-Sound
      authenticated refl revokes refl

revoked_for_ever_example :
    is_ok (
      authenticate_token env "b"
        (handle_all env (("Bearer root", revoke_action "1") ∷ []) revoked_db).tokens)
    ≡ false
revoked_for_ever_example =
    revoked_for_ever env "Bearer a" "2" "b" db revoked_db 1 victim
      (("Bearer root", revoke_action "1") ∷ []) db-Sound refl refl revokes refl refl

revokes_by_caller : revoke env caller "2" db ≡ ok revoked_db
unfolding revoke parsed found get_token_tenant revoke_token revoke_rows any_revocable
revokes_by_caller = refl

revoke-again_example : revoke env caller "2" revoked_db ≡ err missing
revoke-again_example = revoke-again env caller "2" db revoked_db revokes_by_caller
