-- ===== src/Events/Outbox/Hash.antt =====
-- internal/events/normalize.go: PayloadHash and PayloadJSON, and what Enqueue takes of them.
use osscdp.Prelude.{ℕ, String, some, none, ok, err, ◌≡◌, refl}
use osscdp.Events.Envelope.{Envelope}
use osscdp.Events.Normalize.{marshal_failed}
use osscdp.Events.Outbox.{Codec, stable_of, payload_json, payload_hash, row_of, marshalled}

module _ (codec : Codec) where
  pub payload_hash-same :
      (e e' : Envelope) → stable_of e' ≡ stable_of e → payload_hash codec e' ≡ payload_hash codec e
  unfolding payload_hash marshalled
  payload_hash-same e e' h = rw h refl

  pub payload_json-ok :
      (e : Envelope) {json : String}
      → codec.marshal_envelope e ≡ some json
      → payload_json codec e ≡ ok json
  unfolding payload_json marshalled
  payload_json-ok e h = rw h refl

  pub payload_json-err :
      (e : Envelope) → codec.marshal_envelope e ≡ none → payload_json codec e ≡ err marshal_failed
  unfolding payload_json marshalled
  payload_json-err e h = rw h refl

  -- The three columns that a retry is compared by.
  pub row_of-key :
      (id : ℕ) (e : Envelope) (json hash : String)
      → ((row_of codec id e json hash).tenant_id ≡ e.tenant_id)
        × ((row_of codec id e json hash).event_id ≡ e.event_id)
        × ((row_of codec id e json hash).payload_hash ≡ hash)
  unfolding row_of
  row_of-key id e json hash = (refl, refl, refl)
