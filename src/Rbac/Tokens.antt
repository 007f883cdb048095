-- ===== src/Rbac/Tokens.antt =====
-- internal/rbac/repo.go: the table admin_token, with its unique id and token_hash.
pub mod Rows
pub mod Dead
pub mod Tenant
use osscdp.Prelude.{
  ℕ, zero, suc, String, ◌==◌, Bool, true, false, not, ◌&&◌, ◌||◌, Option, none, some, List, [], ◌∷◌,
  ◌++◌, eqb, ltb, if◌then◌else◌, Result, ok, err,
}
use osscdp.Rbac.Roles.{Principal}

-- StatusActive and StatusRevoked
pub data TokenStatus : Type 0 where
  active revoked : TokenStatus

pub record Token : Type 0 where
  pub id : ℕ
  pub tenant_id : Option ℕ
  pub name : String
  pub role : String
  pub token_hash : String
  pub status : TokenStatus
  pub created_at : ℕ

-- TokenSummary
pub record TokenSummary : Type 0 where
  pub id : ℕ
  pub name : String
  pub role : String
  pub tenant_id : Option ℕ
  pub status : TokenStatus
  pub created_at : ℕ

abbrev pub is_active : TokenStatus → Bool
is_active active = true
is_active revoked = false

-- A violation of a unique key or of the reference to a tenant is the only failure of the database
-- that the model has.
pub data TokenError : Type 0 where
  not_found insert_failed : TokenError

abbrev pub clashes : ℕ → String → Token → Bool
clashes id hash t = eqb t.id id || t.token_hash == hash

unfoldable pub is_taken : ℕ → String → List Token → Bool
is_taken id hash [] = false
is_taken id hash (t ∷ ts) = clashes id hash t || is_taken id hash ts

abbrev pub exists : (ℕ → Bool) → Option ℕ → Bool
exists tenants none = true
exists tenants (some t) = tenants t

-- CreateToken, of a generated id and hash. The tenants are those of the table that tenant_id refers to.
unfoldable pub create_token : (ℕ → Bool) → Token → List Token → Result TokenError (List Token)
unfolding is_taken
create_token tenants t tokens =
    if not (is_taken t.id t.token_hash tokens) && exists tenants t.tenant_id
    then ok (tokens ++ t ∷ [])
    else err insert_failed

abbrev in_scope : Option ℕ → Option ℕ → Bool
in_scope none tenant = true
in_scope (some s) none = false
in_scope (some s) (some t) = eqb t s

abbrev summary : Token → TokenSummary
summary t = record {
  id = t.id;
  name = t.name;
  role = t.role;
  tenant_id = t.tenant_id;
  status = t.status;
  created_at = t.created_at;
}

-- One row put before the first that is not newer.
abbrev place : TokenSummary → List TokenSummary → List TokenSummary
place t [] = t ∷ []
place t (s ∷ ss) =
    let rest = place t ss in if ltb t.created_at s.created_at then s ∷ rest else t ∷ s ∷ ss

unfoldable pub scoped_newest : Option ℕ → List Token → List TokenSummary
scoped_newest scope [] = []
scoped_newest scope (t ∷ ts) =
    let rest = scoped_newest scope ts in
    if in_scope scope t.tenant_id then place (summary t) rest else rest

abbrev take : ℕ → List TokenSummary → List TokenSummary
take zero ts = []
take (suc n) [] = []
take (suc n) (t ∷ ts) = t ∷ take n ts

-- ListTokens
unfoldable pub list_tokens : Option ℕ → List Token → List TokenSummary
unfolding scoped_newest
list_tokens scope tokens = take 500 (scoped_newest scope tokens)

-- GetTokenTenant
unfoldable pub get_token_tenant : ℕ → List Token → Result TokenError (Option ℕ)
get_token_tenant id [] = err not_found
get_token_tenant id (t ∷ ts) =
    let rest = get_token_tenant id ts in if eqb t.id id then ok t.tenant_id else rest

abbrev pub is_revocable : ℕ → Token → Bool
is_revocable id t = eqb t.id id && is_active t.status

unfoldable pub revoke_rows : ℕ → List Token → List Token
revoke_rows id [] = []
revoke_rows id (t ∷ ts) =
    let rest = revoke_rows id ts in
    (if is_revocable id t then record t { status = revoked } else t) ∷ rest

unfoldable pub any_revocable : ℕ → List Token → Bool
any_revocable id [] = false
any_revocable id (t ∷ ts) = is_revocable id t || any_revocable id ts

-- RevokeToken: no row affected is not found.
unfoldable pub revoke_token : ℕ → List Token → Result TokenError (List Token)
unfolding revoke_rows any_revocable
revoke_token id tokens =
    if any_revocable id tokens then ok (revoke_rows id tokens) else err not_found

abbrev pub is_bearer : String → Token → Bool
is_bearer hash t = t.token_hash == hash && is_active t.status

-- FindByTokenHash
unfoldable pub find_by_token_hash : String → List Token → Result TokenError Principal
find_by_token_hash hash [] = err not_found
find_by_token_hash hash (t ∷ ts) =
    let rest = find_by_token_hash hash ts in
    if is_bearer hash t then ok (record { role = t.role; tenant_id = t.tenant_id }) else rest
