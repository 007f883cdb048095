-- ===== src/Events/Service.antt =====
-- internal/events/service.go: Ingest and IngestBatch.
mod Retry
mod Batch
mod Examples
use osscdp.Prelude.{
  ℕ, zero, suc, String, Bool, Option, none, some, List, [], ◌∷◌, ◌+◌, Result, ok, err, ◌>>=◌, ◌>>◌,
}
use osscdp.Events.Envelope.{Envelope}
use osscdp.Events.Normalize.{IncomingEvent, EventError, Call, normalize}
use osscdp.Events.Validate.{validate_event}
use osscdp.Events.Outbox.{
  Row, Codec, EnqueueResult, inserted, duplicate, conflict, payload_json, payload_hash, row_of,
  enqueue_row,
}

-- Result and error of Ingest; a conflict carries the event's id too.
pub data Ingested : Type 0 where
  accepted_event duplicate_event conflict_event : String → Ingested
  refused_event : EventError → Ingested

pub record Env : Type 0 where
  pub to_lower : String → String
  pub parse_time : String → Option ℕ
  pub codec : Codec

-- BatchItemResult: the status is the constructor, the error that of the refusal.
pub record BatchItem : Type 0 where
  pub index : ℕ
  pub outcome : Ingested

-- BatchResult
pub record BatchResult : Type 0 where
  pub accepted : ℕ
  pub duplicates : ℕ
  pub rejected : ℕ
  pub results : List BatchItem

reported : String → EnqueueResult → Ingested
reported id inserted = accepted_event id
reported id duplicate = duplicate_event id
reported id conflict = conflict_event id

-- The counters, and the item in front of the later ones.
tallied : ℕ → Ingested → BatchResult → BatchResult
tallied i (accepted_event id) b = record b {
  accepted = suc b.accepted;
  results = record { index = i; outcome = accepted_event id } ∷ b.results;
}
tallied i (duplicate_event id) b = record b {
  duplicates = suc b.duplicates;
  results = record { index = i; outcome = duplicate_event id } ∷ b.results;
}
tallied i (conflict_event id) b = record b {
  rejected = suc b.rejected;
  results = record { index = i; outcome = conflict_event id } ∷ b.results;
}
tallied i (refused_event e) b = record b {
  rejected = suc b.rejected;
  results = record { index = i; outcome = refused_event e } ∷ b.results;
}

module _ (env : Env) where
  -- What Ingest does between Normalize and the outbox: the row to insert.
  pub prepared : ℕ → Envelope → Result EventError Row
  prepared row_id e = do
    validate_event e
    json ← payload_json env.codec e
    hash ← payload_hash env.codec e
    ok (row_of env.codec row_id e json hash)

  pub prepare : IncomingEvent → ℕ → ℕ → String → Call → Result EventError Row
  unfolding prepared
  prepare r tenant source forced c = do
    e ← normalize env.to_lower env.parse_time r tenant source forced c
    prepared c.row_id e

  stored : Result EventError Row → List Row → List Row × Ingested
  unfolding reported
  stored (err e) rows = (rows, refused_event e)
  stored (ok row) rows = let out = enqueue_row row rows in (out.0, reported row.event_id out.1)

  -- Ingest
  pub ingest : IncomingEvent → ℕ → ℕ → String → Call → List Row → List Row × Ingested
  unfolding prepare stored
  ingest r tenant source forced c rows = stored (prepare r tenant source forced c) rows

  -- IngestBatch, from the place `i` on.
  pub ingest_batch : ℕ → ℕ → (ℕ → Call) → ℕ → List IncomingEvent → List Row → List Row × BatchResult
  unfolding ingest tallied
  ingest_batch tenant source calls i [] rows =
      (rows, record { accepted = 0; duplicates = 0; rejected = 0; results = [] })
  ingest_batch tenant source calls i (r ∷ rs) rows =
      let one = ingest r tenant source "" (calls i) rows in
      let rest = ingest_batch tenant source calls (suc i) rs one.0 in
      (rest.0, tallied i one.1 rest.1)
