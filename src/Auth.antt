-- ===== src/Auth.antt =====
-- internal/auth: the administrators' authentication, authorization and token management.
pub mod Authorize
pub mod Handler
