-- ===== src/Identity.antt =====
-- internal/identity: the resolution of an event's identifiers to one cluster.
pub mod Identifier
pub mod Graph
pub mod Resolve
