-- ===== src/Journey.antt =====
-- internal/journey: flows of wait, send, condition and split steps.
pub mod Definition
pub mod Samples
pub mod Validate
pub mod Split
pub mod Enrollment
pub mod Service
