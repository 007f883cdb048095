-- ===== src/Segment.antt =====
-- internal/segment: rules over a profile and its events.
pub mod Rule
pub mod Window
pub mod Validate
pub mod Store
pub mod Leaf
pub mod Evaluate
pub mod DueAt
pub mod Analyze
pub mod Membership
pub mod Pending
pub mod Service
