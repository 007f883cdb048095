-- ===== src/Events/Normalize/Same.antt =====
-- internal/events/normalize.go: what a second normalisation of the same body keeps.
use osscdp.Prelude.{
  ℕ, String, Bool, false, Option, none, some, ok, if◌then◌else◌, is_empty, ◌≡◌, refl, sym, ap, ◌∙◌,
  inl, inr, Bool-cases, >>=-eq-ok, ok-injective,
}
use osscdp.Runtime.Text.{trim_space}
use osscdp.Events.Envelope.{Envelope}
use osscdp.Events.Normalize.{IncomingEvent, Call, event_time, event_id_of, envelope_of, normalize}

-- The instant that the client gave.
abbrev pub client_time : ℕ × Bool → Option ℕ
client_time time = if time.1 then some time.0 else none

module _ (to_lower : String → String) (parse_time : String → Option ℕ) where
  event_time-same :
      (now now' : ℕ) (s : String) {time : ℕ × Bool}
      → event_time to_lower parse_time now s ≡ ok time
      → (time' : ℕ × Bool) × (event_time to_lower parse_time now' s ≡ ok time')
        × (client_time time' ≡ client_time time)
  unfolding event_time
  event_time-same now now' s {time} h = elim (Bool-cases (is_empty s)) [
    | inl e ↦ (
      (now', false),
      rw e refl,
      ap client_time (ok-injective {a = (now, false)} {b = time} (rw e at h)),
    )
    | inr e ↦ (time, rw e (rw e at h), refl)
  ]

  event_id_of-same :
      (new new' : Option String) (s : String)
      → is_empty s ≡ false
      → event_id_of to_lower parse_time new' s ≡ event_id_of to_lower parse_time new s
  unfolding event_id_of
  event_id_of-same new new' s e = rw e refl

  -- The second envelope differs in its source and its instants only, and not in an instant that the
  -- client gave.
  pub normalize-same :
      (r : IncomingEvent) (tenant source source' : ℕ) (forced : String) (c c' : Call) (e : Envelope)
      → is_empty (trim_space r.event_id) ≡ false
      → normalize to_lower parse_time r tenant source forced c ≡ ok e
      → (time time' : ℕ × Bool) × (id : String) × (e
          ≡ envelope_of to_lower parse_time r tenant source forced c.now time id)
        × (normalize to_lower parse_time r tenant source' forced c'
            ≡ ok (envelope_of to_lower parse_time r tenant source' forced c'.now time' id))
        × (client_time time' ≡ client_time time)
  unfolding normalize
  normalize-same r tenant source source' forced c c' e n h =
      let (time, t, h1) =
        >>=-eq-ok (event_time to_lower parse_time c.now (trim_space r.timestamp)) _ h in
      let (id, i, h2) =
        >>=-eq-ok (event_id_of to_lower parse_time c.new_id (trim_space r.event_id)) _ h1 in
      let (time', t', q) = event_time-same c.now c'.now (trim_space r.timestamp) t in
      (
        time,
        time',
        id,
        sym (ok-injective h2),
        rw (t', event_id_of-same c.new_id c'.new_id (trim_space r.event_id) n ∙ i) refl,
        q,
      )
