-- ===== src/Events/Outbox.antt =====
-- internal/events/repo.go and the keys of normalize.go: the outbox, a list of rows with the unique key
-- (tenant_id, event_id). The digest, the text of a UUID and json.Marshal are parameters.
pub mod Unique
pub mod Hash
use Prim.Native.String.{◌++◌ as concat}
use osscdp.Prelude.{
  ℕ, String, ◌==◌, Bool, true, false, not, ◌&&◌, Option, none, some, List, [], ◌∷◌, ◌++◌, Result,
  ok, err, ◌>>=◌, eqb, if◌then◌else◌, is_empty,
}
use osscdp.Events.Envelope.{Envelope, Identifiers}
use osscdp.Events.Normalize.{EventError, marshal_failed}

-- The fields that PayloadHash covers.
pub record Stable : Type 0 where
  pub type_name : String
  pub event_name : String
  pub identifiers : Identifiers
  pub previous_id : String
  pub timestamp : Option ℕ
  pub context : String
  pub properties : String
  pub traits : String

-- A row of event_outbox; its status is always "pending" here.
pub record Row : Type 0 where
  pub id : ℕ
  pub tenant_id : ℕ
  pub source_id : ℕ
  pub event_id : String
  pub type_name : String
  pub event_name : Option String
  pub identifier_key : String
  pub partition_key : String
  pub payload_json : String
  pub payload_hash : String
  pub timestamp : ℕ
  pub received_at : ℕ

-- EnqueueResult
pub data EnqueueResult : Type 0 where
  inserted duplicate conflict : EnqueueResult

pub record Codec : Type 0 where
  pub digest : String → String
  pub uuid_text : ℕ → String
  pub marshal_stable : Stable → Option String
  pub marshal_envelope : Envelope → Option String

abbrev null_string : String → Option String
null_string s = if is_empty s then none else some s

-- clientTimestamp; none is the zero time.
abbrev client_timestamp : Envelope → Option ℕ
client_timestamp e = if e.ts_provided then some e.timestamp else none

abbrev pub stable_of : Envelope → Stable
stable_of e = record {
  type_name = e.type_name;
  event_name = e.event_name;
  identifiers = e.identifiers;
  previous_id = e.previous_id;
  timestamp = client_timestamp e;
  context = e.context;
  properties = e.properties;
  traits = e.traits;
}

abbrev pub is_row : ℕ → String → Row → Bool
is_row tenant event r = eqb r.tenant_id tenant && r.event_id == event

-- The hash that the row of an event has.
unfoldable pub find_hash : ℕ → String → List Row → Option String
find_hash tenant event [] = none
find_hash tenant event (r ∷ rs) =
    let rest = find_hash tenant event rs in
    if is_row tenant event r then some r.payload_hash else rest

unfoldable pub compared : Bool → EnqueueResult
compared true = duplicate
compared false = conflict

-- The insert with its ON CONFLICT, then the comparison of the hashes.
unfoldable pub enqueue_row : Row → List Row → List Row × EnqueueResult
unfolding find_hash compared
enqueue_row r rows = elim (find_hash r.tenant_id r.event_id rows) [
  | none ↦ (rows ++ r ∷ [], inserted)
  | some hash ↦ (rows, compared (hash == r.payload_hash))
]

unfoldable pub marshalled : Option String → Result EventError String
marshalled none = err marshal_failed
marshalled (some s) = ok s

module _ (codec : Codec) where
  -- IdentifierKey
  unfoldable pub identifier_key : Envelope → String
  identifier_key e =
      let i = e.identifiers in
      if not (is_empty i.user_id)
      then concat "user_id:" i.user_id
      else if not (is_empty i.anonymous_id)
      then concat "anonymous_id:" i.anonymous_id
      else if not (is_empty i.email)
      then concat "email:" (codec.digest i.email)
      else if not (is_empty i.phone)
      then concat "phone:" (codec.digest i.phone)
      else if not (is_empty i.external_id)
      then concat "external_id:" i.external_id
      else concat "event_id:" e.event_id

  -- PartitionKey
  unfoldable pub partition_key : Envelope → String
  unfolding identifier_key
  partition_key e = concat (codec.uuid_text e.tenant_id) (concat "|" (identifier_key e))

  -- PayloadJSON
  unfoldable pub payload_json : Envelope → Result EventError String
  unfolding marshalled
  payload_json e = marshalled (codec.marshal_envelope e)

  -- PayloadHash
  unfoldable pub payload_hash : Envelope → Result EventError String
  unfolding marshalled
  payload_hash e = do text ← marshalled (codec.marshal_stable (stable_of e)); ok (codec.digest text)

  -- The row that Enqueue inserts.
  unfoldable pub row_of : ℕ → Envelope → String → String → Row
  unfolding identifier_key partition_key
  row_of id e json hash = record {
    id = id;
    tenant_id = e.tenant_id;
    source_id = e.source_id;
    event_id = e.event_id;
    type_name = e.type_name;
    event_name = null_string e.event_name;
    identifier_key = identifier_key e;
    partition_key = partition_key e;
    payload_json = json;
    payload_hash = hash;
    timestamp = e.timestamp;
    received_at = e.received_at;
  }
