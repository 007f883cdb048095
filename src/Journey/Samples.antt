-- ===== src/Journey/Samples.antt =====
-- A definition of a journey for the tests: a day of waiting, then a split to a send or to the end.
use osscdp.Prelude.{ℕ, String, none, List, [], ◌∷◌, pos}
use osscdp.Journey.Definition.{Branch, Step}
use osscdp.Journey.Enrollment.{Key, Enrollment}

abbrev pub sample_step : String → String → ℕ → List Branch → Step
sample_step type_name duration destination branches = record {
  type_name = type_name;
  duration = duration;
  destination_id = destination;
  next = pos 0;
  condition = none;
  if_true = pos 0;
  if_false = pos 0;
  branches = branches;
}

abbrev pub sample_branches : List Branch
sample_branches =
    record { weight = pos 60; next = pos 2 } ∷ record { weight = pos 40; next = pos 3 } ∷ []

abbrev pub sample_send : Step
sample_send = sample_step "send" "" 9 []

abbrev pub sample_steps : List Step
sample_steps =
    sample_step "wait" "1d" 0 [] ∷ sample_step "split" "" 0 sample_branches ∷ sample_send ∷ []

abbrev pub sample_key : Key
sample_key = record { tenant_id = 1; journey_id = 2; customer_profile_id = 7 }

abbrev pub sample_enrollment : Enrollment
sample_enrollment = record {
  tenant_id = 1;
  journey_id = 2;
  customer_profile_id = 7;
  enrollment_seq = 0;
  journey_version = 1;
  current_step_index = pos 0;
  step_seq = 0;
  due_at = 100;
}
