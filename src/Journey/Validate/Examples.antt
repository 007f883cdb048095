-- ===== src/Journey/Validate/Examples.antt =====
-- The validation of a concrete definition.
use osscdp.Prelude.{refl}
use osscdp.Segment.Window.{parse_window}
use osscdp.Journey.Validate.{
  validate_definition, validate_steps, validate_step, validate_wait, validate_split,
  validate_branches, validate_send,
}
use osscdp.Journey.Validate.Forward.{StepsOk, validate_definition-forward}
use osscdp.Samples.{sample_runtime}
use osscdp.Journey.Samples.{sample_steps}

validate_definition-forward_example : StepsOk sample_runtime 3 0 sample_steps
unfolding validate_definition validate_steps validate_step validate_wait validate_split
    validate_branches validate_send parse_window
validate_definition-forward_example = validate_definition-forward sample_runtime sample_steps refl
