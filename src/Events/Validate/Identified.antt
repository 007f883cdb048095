-- ===== src/Events/Validate/Identified.antt =====
-- internal/events/validate.go with internal/identity/model.go: an event that is let in has an
-- identifier.
use osscdp.Prelude.{
  String, ◌==◌, Bool, true, false, not, ◌&&◌, List, [], ◌∷◌, ◌++◌, ok, refuse_if, is_empty, ◌≡◌,
  ◌≢◌, refl, ap, arith, inl, inr, Bool-cases, refuse_if-eq-ok,
}
use osscdp.Events.Envelope.{Envelope, type_track, type_identify, type_alias}
use osscdp.Events.Normalize.{
  EventError, event_name_required, identifier_required, identify_requires_id, previous_id_required,
  user_id_required,
}
use osscdp.Events.Validate.{
  validate_event, validate_track, validate_identify, validate_alias, has_identifier_field,
}
use osscdp.Identity.Identifier.{
  Identifier, one, dedupe, all_identifiers, extract_identifiers, has_identifier,
}

abbrev is_nil : List Identifier → Bool
is_nil [] = true
is_nil (a ∷ as') = false

refuse_if-false : (b : Bool) (x : EventError) (u : Unit {0}) → refuse_if b x ≡ ok u → b ≡ false
refuse_if-false true x u h = absurd (ground arith)
refuse_if-false false x u h = refl

not-false : (b : Bool) → not b ≡ false → b ≡ true
not-false true h = refl
not-false false h = absurd (ground arith)

track-has :
    (e : Envelope) (u : Unit {0})
    → validate_track e ≡ ok u
    → has_identifier_field e.identifiers ≡ true
unfolding validate_track
track-has e u h =
    let (a, b) =
      refuse_if-eq-ok (is_empty e.event_name) event_name_required
        (refuse_if (not (has_identifier_field e.identifiers)) identifier_required) h in
    not-false (has_identifier_field e.identifiers)
      (refuse_if-false (not (has_identifier_field e.identifiers)) identifier_required u b)

identify-has :
    (e : Envelope) (u : Unit {0})
    → validate_identify e ≡ ok u
    → has_identifier_field e.identifiers ≡ true
unfolding validate_identify
identify-has e u h =
    let b =
      refuse_if-false (is_empty e.identifiers.user_id && is_empty e.identifiers.anonymous_id)
        identify_requires_id u h in
    ground arith

alias-has :
    (e : Envelope) (u : Unit {0})
    → validate_alias e ≡ ok u
    → has_identifier_field e.identifiers ≡ true
unfolding validate_alias
alias-has e u h =
    let (a, b) =
      refuse_if-eq-ok (is_empty e.previous_id) previous_id_required
        (refuse_if (is_empty e.identifiers.user_id) user_id_required) h in
    let c = refuse_if-false (is_empty e.identifiers.user_id) user_id_required u b in ground arith

validated-has :
    (e : Envelope) (u : Unit {0})
    → validate_event e ≡ ok u
    → has_identifier_field e.identifiers ≡ true
unfolding validate_event
validated-has e u h = elim (Bool-cases (e.type_name == type_track)) [
  | inl t ↦ track-has e u (rw t at h)
  | inr t ↦ elim (Bool-cases (e.type_name == type_identify)) [
    | inl i ↦ identify-has e u (rw (t, i) at h)
    | inr i ↦ elim (Bool-cases (e.type_name == type_alias)) [
      | inl a ↦ alias-has e u (rw (t, i, a) at h)
      | inr a ↦ absurd (let h' = rw (t, i, a) at h in ground arith)
    ]
  ]
]

is_nil-append : (xs ys : List Identifier) → is_nil (xs ++ ys) ≡ (is_nil xs && is_nil ys)
is_nil-append [] ys = refl
is_nil-append (x ∷ xs) ys = refl

is_nil-one : (namespace value : String) → is_nil (one namespace value) ≡ is_empty value
is_nil-one namespace value = elim (Bool-cases (is_empty value)) [
  | inl e ↦ rw e refl
  | inr e ↦ rw e refl
]

all_identifiers-some :
    (e : Envelope) → has_identifier_field e.identifiers ≡ true → is_nil (all_identifiers e) ≡ false
unfolding all_identifiers
all_identifiers-some e h = simp (is_nil-append, is_nil-one) (ground arith)

dedupe-some : (xs : List Identifier) → is_nil xs ≡ false → is_nil (dedupe [] xs) ≡ false
unfolding dedupe has_identifier
dedupe-some [] h = h
dedupe-some (x ∷ xs) h = refl

-- An event that Validate lets pass has an identifier, so Resolve gives it a cluster.
pub validate_event-identified :
    (e : Envelope) (u : Unit {0}) → validate_event e ≡ ok u → extract_identifiers e ≢ []
unfolding extract_identifiers
validate_event-identified e u h k =
    let some_left =
      dedupe-some (all_identifiers e) (all_identifiers-some e (validated-has e u h)) in
    let none_left = ap is_nil k in ground arith
