-- ===== src/Events/Envelope.antt =====
-- internal/events/envelope.go: the canonical event.
use osscdp.Prelude.{ℕ, String, Bool}

abbrev pub type_track : String
type_track = "track"

abbrev pub type_identify : String
type_identify = "identify"

abbrev pub type_alias : String
type_alias = "alias"

-- Identifiers
pub record Identifiers : Type 0 where
  pub user_id : String
  pub anonymous_id : String
  pub email : String
  pub phone : String
  pub external_id : String
  pub device_id : String

-- Envelope. The last three texts are raw JSON; instants are UTC nanoseconds.
pub record Envelope : Type 0 where
  pub event_id : String
  pub tenant_id : ℕ
  pub source_id : ℕ
  pub type_name : String
  pub event_name : String
  pub identifiers : Identifiers
  pub previous_id : String
  pub timestamp : ℕ
  pub received_at : ℕ
  pub context : String
  pub properties : String
  pub traits : String
  pub ts_provided : Bool
