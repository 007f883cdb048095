-- ===== src/Rbac.antt =====
-- internal/rbac: roles and the admin tokens.
pub mod Roles
pub mod Tokens
