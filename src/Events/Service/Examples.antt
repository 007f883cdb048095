-- ===== src/Events/Service/Examples.antt =====
-- A concrete track event, sent twice with another event between, and a batch.
use osscdp.Prelude.{◌⊎◌, false, none, some, List, [], ◌∷◌, ◌≡◌, refl, length, ◌+◌, is_empty}
use osscdp.Runtime.Text.{trim_space, trim_left, trim_right}
use osscdp.Events.Normalize.{
  IncomingEvent, Call, marshal_failed, normalize, event_time, event_id_of, envelope_of,
  normalized_identifiers,
}
use osscdp.Events.Envelope.{Envelope}
use osscdp.Events.Validate.{validate_event, validate_track}
use osscdp.Events.Outbox.{
  find_hash, enqueue_row, marshalled, identifier_key, partition_key, payload_json, payload_hash,
  row_of,
}
use osscdp.Events.Service.{
  Env, accepted_event, duplicate_event, refused_event, prepared, prepare, stored, reported, ingest,
  ingest_batch,
}
use osscdp.Events.Service.Retry.{Request, ingest_all, ingest-again}
use osscdp.Events.Service.Batch.{Placed, ingest_batch-counts}

abbrev env : Env
env = record {
  to_lower = λ s. s;
  parse_time = λ s. none;
  codec = record {
    digest = λ s. s;
    uuid_text = λ n. "t";
    marshal_stable = λ s. some s.event_name;
    marshal_envelope = λ e. some e.event_name;
  };
}

abbrev body : IncomingEvent
body = record {
  event_id = " e1 ";
  type_name = "track";
  event_name = "purchase";
  user_id = "u1";
  anonymous_id = "";
  email = "";
  phone = "";
  external_id = "";
  device_id = "";
  previous_id = "";
  timestamp = "";
  context = "";
  properties = "{}";
  traits = "";
}

abbrev first_call : Call
first_call = record { now = 100; new_id = none; row_id = 7 }

abbrev second_call : Call
second_call = record { now = 900; new_id = none; row_id = 9 }

abbrev later : List Request
later =
    record {
      incoming = record body { event_id = "e2" };
      tenant_id = 1;
      source_id = 2;
      forced_type = "";
      call = first_call;
    }
    ∷ []

trimmed : is_empty (trim_space body.event_id) ≡ false
unfolding trim_space trim_left trim_right
trimmed = refl

first_accepted : (ingest env body 1 2 "" first_call []).1 ≡ accepted_event "e1"
unfolding ingest prepare prepared stored reported normalize event_time event_id_of envelope_of
    normalized_identifiers validate_event validate_track trim_space trim_left trim_right
    payload_json payload_hash marshalled row_of identifier_key partition_key enqueue_row find_hash
first_accepted = refl

ingest-again_example :
    let after = ingest_all env later (ingest env body 1 2 "" first_call []).0 in
    (ingest env body 1 3 "" second_call after ≡ (after, duplicate_event "e1"))
    ⊎ ((e : Envelope) × ((env.codec.marshal_envelope e ≡ none)
          × (ingest env body 1 3 "" second_call after ≡ (after, refused_event marshal_failed))))
ingest-again_example =
    ingest-again env body 1 2 3 "" first_call second_call "e1" later [] trimmed first_accepted

ingest_batch-counts_example :
    let out = ingest_batch env 1 2 (λ i. first_call) 0 (body ∷ body ∷ []) [] in
    (length out.0 ≡ 0 + out.1.accepted)
    × (out.1.accepted + out.1.duplicates + out.1.rejected ≡ 2)
    × (length out.1.results ≡ 2)
    × Placed 0 out.1.results
ingest_batch-counts_example = ingest_batch-counts env 1 2 (λ i. first_call) 0 (body ∷ body ∷ []) []
