-- ===== src/Events/Validate.antt =====
-- internal/events/validate.go: the rules for each type of event.
pub mod Identified
use osscdp.Prelude.{
  String, ◌==◌, Bool, true, false, not, ◌&&◌, ◌||◌, Result, ok, err, ◌>>=◌, ◌>>◌, refuse_if,
  if◌then◌else◌, is_empty,
}
use osscdp.Events.Envelope.{Envelope, Identifiers, type_track, type_identify, type_alias}
use osscdp.Events.Normalize.{
  EventError, event_name_required, identifier_required, identify_requires_id, previous_id_required,
  user_id_required, unknown_type,
}

-- hasIdentifier
abbrev pub has_identifier_field : Identifiers → Bool
has_identifier_field i =
    not (is_empty i.user_id)
    || (not (is_empty i.anonymous_id)
        || (not (is_empty i.email)
            || (not (is_empty i.phone)
                || (not (is_empty i.external_id) || not (is_empty i.device_id)))))

unfoldable pub validate_track : Envelope → Result EventError (Unit {0})
validate_track e = do
  refuse_if (is_empty e.event_name) event_name_required
  refuse_if (not (has_identifier_field e.identifiers)) identifier_required

unfoldable pub validate_identify : Envelope → Result EventError (Unit {0})
validate_identify e =
    refuse_if (is_empty e.identifiers.user_id && is_empty e.identifiers.anonymous_id)
      identify_requires_id

unfoldable pub validate_alias : Envelope → Result EventError (Unit {0})
validate_alias e = do
  refuse_if (is_empty e.previous_id) previous_id_required
  refuse_if (is_empty e.identifiers.user_id) user_id_required

-- Validate
unfoldable pub validate_event : Envelope → Result EventError (Unit {0})
unfolding validate_track validate_identify validate_alias
validate_event e =
    if e.type_name == type_track
    then validate_track e
    else if e.type_name == type_identify
    then validate_identify e
    else if e.type_name == type_alias
    then validate_alias e
    else err (unknown_type e.type_name)
