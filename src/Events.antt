-- ===== src/Events.antt =====
-- internal/events: envelopes, their normalisation and validation, and their ingestion.
pub mod Envelope
pub mod Normalize
pub mod Validate
pub mod Outbox
pub mod Service
