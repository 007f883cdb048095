-- ===== src/Profile.antt =====
-- internal/profile: the unified profile of a customer.
pub mod Merge
pub mod Service
