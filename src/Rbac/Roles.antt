-- ===== src/Rbac/Roles.antt =====
-- internal/rbac/roles.go: roles, permissions, principals.
use osscdp.Prelude.{
  ℕ, String, ◌==◌, Bool, true, false, ◌||◌, Option, none, some, List, [], ◌∷◌, ◌++◌, is_some,
  if◌then◌else◌,
}

abbrev pub role_super_admin : String
role_super_admin = "SUPER_ADMIN"

abbrev pub perm_admin_write : String
perm_admin_write = "admin:write"

-- readPerms
abbrev read_perms : List String
read_perms =
    "source:read" ∷ "event:read" ∷ "profile:read" ∷ "segment:read" ∷ "journey:read"
    ∷ "destination:read" ∷ "activation:read" ∷ "audit:read" ∷ "dlq:read" ∷ []

-- allPerms
abbrev all_perms : List String
all_perms =
    "source:read" ∷ "source:write" ∷ "event:read" ∷ "event:replay" ∷ "profile:read"
    ∷ "profile:delete" ∷ "segment:read" ∷ "segment:write" ∷ "journey:read" ∷ "journey:write"
    ∷ "destination:read" ∷ "destination:write" ∷ "activation:read" ∷ "dlq:read" ∷ "dlq:retry"
    ∷ "audit:read" ∷ "consent:write" ∷ "pii:read" ∷ perm_admin_write ∷ []

abbrev marketer_perms : List String
marketer_perms =
    read_perms ++ ("segment:write" ∷ "journey:write" ∷ "destination:write" ∷ "consent:write" ∷ [])

abbrev operator_perms : List String
operator_perms = read_perms ++ ("dlq:retry" ∷ "event:replay" ∷ [])

-- rolePerms; none is a missing key.
unfoldable pub role_perms : String → Option (List String)
role_perms role =
    if role == role_super_admin
    then some all_perms
    else if role == "TENANT_ADMIN"
    then some all_perms
    else if role == "MARKETER"
    then some marketer_perms
    else if role == "ANALYST"
    then some read_perms
    else if role == "OPERATOR"
    then some operator_perms
    else if role == "VIEWER"
    then some read_perms
    else none

abbrev is_listed : String → List String → Bool
is_listed p [] = false
is_listed p (q ∷ qs) = q == p || is_listed p qs

abbrev listed : String → Option (List String) → Bool
listed p none = false
listed p (some ps) = is_listed p ps

-- ValidRole
unfoldable pub valid_role : String → Bool
unfolding role_perms
valid_role role = is_some (role_perms role)

-- Has
unfoldable pub has : String → String → Bool
unfolding role_perms
has role perm = listed perm (role_perms role)

-- Principal; no tenant is every tenant.
pub record Principal : Type 0 where
  pub role : String
  pub tenant_id : Option ℕ

abbrev pub is_none : Option ℕ → Bool
is_none none = true
is_none (some t) = false

-- IsSuperAdmin
abbrev pub is_super_admin : Principal → Bool
is_super_admin p = p.role == role_super_admin || is_none p.tenant_id

-- Can
unfoldable pub can : Principal → String → Bool
unfolding has
can p perm = has p.role perm
