-- ===== src/Events/Normalize.antt =====
-- internal/events/normalize.go: the envelope of an incoming event. ToLower, time.Parse and the
-- generation of an id are parameters.
pub mod Same
use osscdp.Prelude.{
  ℕ, String, Bool, true, false, Option, none, some, Result, ok, err, ◌>>=◌, if◌then◌else◌, is_empty,
}
use osscdp.Runtime.Text.{trim_space}
use osscdp.Events.Envelope.{Envelope, Identifiers, type_track}

-- IncomingEvent; the last three are raw JSON.
pub record IncomingEvent : Type 0 where
  pub event_id : String
  pub type_name : String
  pub event_name : String
  pub user_id : String
  pub anonymous_id : String
  pub email : String
  pub phone : String
  pub external_id : String
  pub device_id : String
  pub previous_id : String
  pub timestamp : String
  pub context : String
  pub properties : String
  pub traits : String

-- The validation errors, one constructor for each field and message, and the failures of the runtime.
pub data EventError : Type 0 where
  timestamp_not_rfc3339 : EventError
  event_name_required : EventError
  identifier_required : EventError
  identify_requires_id : EventError
  previous_id_required : EventError
  user_id_required : EventError
  unknown_type : String → EventError
  id_failed : EventError
  marshal_failed : EventError

-- What one call draws from outside: the instant and the id for an event without one.
pub record Call : Type 0 where
  pub now : ℕ
  pub new_id : Option String
  pub row_id : ℕ

-- `forcedType`, then the trimmed type of the body, then "track".
abbrev typed : String → String → String
typed forced typ = if is_empty forced then (if is_empty typ then type_track else typ) else forced

unfoldable pub parsed : Option ℕ → Result EventError (ℕ × Bool)
parsed none = err timestamp_not_rfc3339
parsed (some t) = ok (t, true)

unfoldable pub generated : Option String → Result EventError String
generated none = err id_failed
generated (some id) = ok id

module _ (to_lower : String → String) (parse_time : String → Option ℕ) where
  -- The instant of the event and whether the client gave it.
  unfoldable pub event_time : ℕ → String → Result EventError (ℕ × Bool)
  unfolding parsed
  event_time now s = if is_empty s then ok (now, false) else parsed (parse_time s)

  unfoldable pub event_id_of : Option String → String → Result EventError String
  unfolding generated
  event_id_of new_id s = if is_empty s then generated new_id else ok s

  unfoldable pub normalized_identifiers : IncomingEvent → Identifiers
  unfolding trim_space
  normalized_identifiers r = record {
    user_id = trim_space r.user_id;
    anonymous_id = trim_space r.anonymous_id;
    email = to_lower (trim_space r.email);
    phone = trim_space r.phone;
    external_id = trim_space r.external_id;
    device_id = trim_space r.device_id;
  }

  unfoldable pub envelope_of : IncomingEvent → ℕ → ℕ → String → ℕ → ℕ × Bool → String → Envelope
  unfolding normalized_identifiers
  envelope_of r tenant source forced now time id = record {
    event_id = id;
    tenant_id = tenant;
    source_id = source;
    type_name = typed forced (trim_space r.type_name);
    event_name = trim_space r.event_name;
    identifiers = normalized_identifiers r;
    previous_id = trim_space r.previous_id;
    timestamp = time.0;
    received_at = now;
    context = r.context;
    properties = r.properties;
    traits = r.traits;
    ts_provided = time.1;
  }

  -- Normalize
  unfoldable pub normalize : IncomingEvent → ℕ → ℕ → String → Call → Result EventError Envelope
  unfolding event_time event_id_of envelope_of
  normalize r tenant source forced c = do
    time ← event_time c.now (trim_space r.timestamp)
    id ← event_id_of c.new_id (trim_space r.event_id)
    ok (envelope_of r tenant source forced c.now time id)
