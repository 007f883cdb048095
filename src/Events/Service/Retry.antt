-- ===== src/Events/Service/Retry.antt =====
-- internal/events/service.go: an event that its client sends again.
use osscdp.Prelude.{
  ◌⊎◌, ℕ, String, Bool, false, Option, none, some, List, [], ◌∷◌, Result, ok, err, is_empty, ◌≡◌,
  refl, sym, ap, ◌∙◌, arith, subst, >>=-eq-ok, ok-injective, Option-cases, inl, inr,
}
use osscdp.Runtime.Text.{trim_space}
use osscdp.Events.Envelope.{Envelope}
use osscdp.Events.Normalize.{
  IncomingEvent, EventError, marshal_failed, Call, normalize, envelope_of,
}
use osscdp.Events.Normalize.Same.{client_time, normalize-same}
use osscdp.Events.Validate.{validate_event}
use osscdp.Events.Outbox.{
  Row, find_hash, stable_of, payload_json, payload_hash, row_of, EnqueueResult, inserted,
  enqueue_row,
}
use osscdp.Events.Outbox.Hash.{payload_hash-same, payload_json-ok, payload_json-err, row_of-key}
use osscdp.Events.Outbox.Unique.{find_hash-kept, find_hash-enqueue, enqueue_row-duplicate}
use osscdp.Events.Service.{
  Env, accepted_event, duplicate_event, refused_event, prepare, prepared, stored, ingest, reported,
}

-- A call of Ingest.
pub record Request : Type 0 where
  pub incoming : IncomingEvent
  pub tenant_id : ℕ
  pub source_id : ℕ
  pub forced_type : String
  pub call : Call

-- The outbox after these calls, in order.
unfoldable pub ingest_all : Env → List Request → List Row → List Row
ingest_all env [] rows = rows
ingest_all env (q ∷ qs) rows =
    ingest_all env qs (ingest env q.incoming q.tenant_id q.source_id q.forced_type q.call rows).0

module _ (env : Env) where
  find_hash-stored :
      (t : ℕ) (e h : String) (row : Result EventError Row) (rows : List Row)
      → find_hash t e rows ≡ some h
      → find_hash t e (stored env row rows).0 ≡ some h
  unfolding stored
  find_hash-stored t e h (err x) rows k = k
  find_hash-stored t e h (ok row) rows k = find_hash-kept t e h row rows k

  find_hash-all :
      (t : ℕ) (e h : String) (qs : List Request) (rows : List Row)
      → find_hash t e rows ≡ some h
      → find_hash t e (ingest_all env qs rows) ≡ some h
  unfolding ingest_all ingest
  find_hash-all t e h [] rows k = k
  find_hash-all t e h (q ∷ qs) rows k = find_hash-all t e h qs _ (
      find_hash-stored t e h (prepare env q.incoming q.tenant_id q.source_id q.forced_type q.call)
        rows k)

  reported-accepted :
      (id id' : String) (out : EnqueueResult)
      → reported id out ≡ accepted_event id'
      → (out ≡ inserted) × (id ≡ id')
  unfolding reported
  reported-accepted id id' inserted h = (refl, ground arith)
  reported-accepted id id' EnqueueResult.duplicate h = absurd (ground arith)
  reported-accepted id id' EnqueueResult.conflict h = absurd (ground arith)

  stored-accepted :
      (row : Result EventError Row) (rows : List Row) (id : String)
      → (stored env row rows).1 ≡ accepted_event id
      → (r : Row) × (row ≡ ok r)
        × (r.event_id ≡ id)
        × (find_hash r.tenant_id r.event_id (stored env row rows).0 ≡ some r.payload_hash)
  unfolding stored
  stored-accepted (err e) rows id h = absurd (ground arith)
  stored-accepted (ok r) rows id h =
      let (i, e) = reported-accepted r.event_id id (enqueue_row r rows).1 h in
      (r, refl, e, find_hash-enqueue r rows i)

  -- What a retry shares with the first row.
  SameKey : Row → Row → Type 0
  SameKey row row' =
      (row'.tenant_id ≡ row.tenant_id)
      × (row'.event_id ≡ row.event_id)
      × (row'.payload_hash ≡ row.payload_hash)

  row_of-SameKey :
      (id id' : ℕ) (e e' : Envelope) (json json' hash : String)
      → e'.tenant_id ≡ e.tenant_id
      → e'.event_id ≡ e.event_id
      → SameKey (row_of env.codec id e json hash) (row_of env.codec id' e' json' hash)
  unfolding SameKey
  row_of-SameKey id id' e e' json json' hash t i =
      let (a, b, c) = row_of-key env.codec id e json hash in
      let (a', b', c') = row_of-key env.codec id' e' json' hash in
      (a' ∙ t ∙ sym a, b' ∙ i ∙ sym b, c' ∙ sym c)

  validate-same :
      (r : IncomingEvent) (tenant source source' : ℕ) (forced : String) (now now' : ℕ)
      (time time' : ℕ × Bool) (id : String)
      → validate_event
          (envelope_of env.to_lower env.parse_time r tenant source' forced now' time' id)
        ≡ validate_event
            (envelope_of env.to_lower env.parse_time r tenant source forced now time id)
  unfolding validate_event envelope_of
  validate-same r tenant source source' forced now now' time time' id = refl

  stable-same :
      (r : IncomingEvent) (tenant source source' : ℕ) (forced : String) (now now' : ℕ)
      (time time' : ℕ × Bool) (id : String)
      → client_time time' ≡ client_time time
      → stable_of (envelope_of env.to_lower env.parse_time r tenant source' forced now' time' id)
        ≡ stable_of (envelope_of env.to_lower env.parse_time r tenant source forced now time id)
  unfolding envelope_of
  stable-same r tenant source source' forced now now' time time' id t =
      ap
        (λ (x : Option ℕ).
          record (stable_of
            (envelope_of env.to_lower env.parse_time r tenant source forced now time id)) {
              timestamp = x;
            })
        t

  stored-duplicate :
      (row row' : Row) (id : String) (rows : List Row)
      → SameKey row row'
      → row.event_id ≡ id
      → find_hash row.tenant_id row.event_id rows ≡ some row.payload_hash
      → stored env (ok row') rows ≡ (rows, duplicate_event id)
  unfolding stored reported SameKey
  stored-duplicate row row' id rows (t, e, h) i found =
      let found' : find_hash row'.tenant_id row'.event_id rows ≡ some row'.payload_hash =
        ap (λ (x : ℕ). find_hash x row'.event_id rows) t
        ∙ ap (λ (x : String). find_hash row.tenant_id x rows) e
        ∙ found
        ∙ ap some (sym h) in
      rw (enqueue_row-duplicate row' rows found')
        (ap (λ (x : String). (rows, duplicate_event x)) (e ∙ i))

  -- The outcome of an event whose envelope json.Marshal fails for.
  unfoldable pub Unmarshalled : Result EventError Row → Type 0
  Unmarshalled out =
      (e : Envelope) × ((env.codec.marshal_envelope e ≡ none) × (out ≡ err marshal_failed))

  -- PayloadJSON writes the envelope, or json.Marshal has failed.
  prepared-same :
      (id id' : ℕ) (e e' : Envelope) (row : Row)
      → validate_event e' ≡ validate_event e
      → stable_of e' ≡ stable_of e
      → e'.tenant_id ≡ e.tenant_id
      → e'.event_id ≡ e.event_id
      → prepared env id e ≡ ok row
      → Unmarshalled (prepared env id' e')
        ⊎ ((row' : Row) × (prepared env id' e' ≡ ok row') × SameKey row row')
  unfolding prepared Unmarshalled
  prepared-same id id' e e' row v s t i h =
      let (u, v', h2) = >>=-eq-ok (validate_event e) _ h in
      let (json, j, h3) = >>=-eq-ok (payload_json env.codec e) _ h2 in
      let (hash, k, h4) = >>=-eq-ok (payload_hash env.codec e) _ h3 in
      elim (Option-cases (env.codec.marshal_envelope e')) [
        | inl n ↦ inl (e', (n, rw (v ∙ v', payload_json-err env.codec e' n) refl))
        | inr (json', j') ↦ inr (
          row_of env.codec id' e' json' hash,
          rw (v ∙ v', payload_json-ok env.codec e' j', payload_hash-same env.codec e e' s ∙ k) refl,
          subst (λ (o : Row). SameKey o (row_of env.codec id' e' json' hash)) (ok-injective h4)
              (row_of-SameKey id id' e e' json json' hash t i),
        )
      ]

  -- The retry of a body that gives its event id is prepared as before.
  prepare-same :
      (r : IncomingEvent) (tenant source source' : ℕ) (forced : String) (c c' : Call) (row : Row)
      → is_empty (trim_space r.event_id) ≡ false
      → prepare env r tenant source forced c ≡ ok row
      → Unmarshalled (prepare env r tenant source' forced c')
        ⊎ ((row' : Row) × (prepare env r tenant source' forced c' ≡ ok row') × SameKey row row')
  unfolding prepare envelope_of Unmarshalled
  prepare-same r tenant source source' forced c c' row n h =
      let (e, q, h1) =
        >>=-eq-ok (normalize env.to_lower env.parse_time r tenant source forced c) _ h in
      let (time, time', id, e_path, q', t) =
        normalize-same env.to_lower env.parse_time r tenant source source' forced c c' e n q in
      elim (prepared-same c.row_id c'.row_id
        (envelope_of env.to_lower env.parse_time r tenant source forced c.now time id)
        (envelope_of env.to_lower env.parse_time r tenant source' forced c'.now time' id) row
        (validate-same r tenant source source' forced c.now c'.now time time' id)
        (stable-same r tenant source source' forced c.now c'.now time time' id t) refl refl
        (rw e_path at h1)) [
          | inl (e', (x, y)) ↦ inl (e', (x, rw q' y))
          | inr (row', p, same) ↦ inr (row', rw q' p, same)
        ]

  -- An event that was accepted and whose body gives its event id, sent again by any source of the
  -- tenant after any further events: the outbox stays as it is, and it is a duplicate, unless
  -- there is an envelope that json.Marshal fails for and it is refused for that. A body with no instant may be
  -- sent again at another time.
  pub ingest-again :
      (r : IncomingEvent) (tenant source source' : ℕ) (forced : String) (c c' : Call) (id : String)
      (later : List Request) (rows : List Row)
      → is_empty (trim_space r.event_id) ≡ false
      → (ingest env r tenant source forced c rows).1 ≡ accepted_event id
      → let after = ingest_all env later (ingest env r tenant source forced c rows).0 in
        (ingest env r tenant source' forced c' after ≡ (after, duplicate_event id))
        ⊎ ((e : Envelope) × ((env.codec.marshal_envelope e ≡ none)
              × (ingest env r tenant source' forced c' after
                  ≡ (after, refused_event marshal_failed))))
  unfolding ingest stored Unmarshalled
  ingest-again r tenant source source' forced c c' id later rows n h =
      let first = prepare env r tenant source forced c in
      let (row, p, i, found) = stored-accepted first rows id h in
      let after = ingest_all env later (stored env first rows).0 in
      let kept =
        find_hash-all row.tenant_id row.event_id row.payload_hash later (stored env first rows).0
          found in
      elim (prepare-same r tenant source source' forced c c' row n p) [
        | inl (e, (x, y)) ↦ inr (e, (x, ap (λ (o : Result EventError Row). stored env o after) y))
        | inr (row', p', same) ↦ inl (
            ap (λ (o : Result EventError Row). stored env o after) p'
            ∙ stored-duplicate row row' id after same i kept)
      ]
