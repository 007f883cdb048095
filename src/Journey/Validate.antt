-- ===== src/Journey/Validate.antt =====
-- internal/journey/dsl.go, `Validate`. A definition that passes comes back with the rules that
-- segment.Validate has written to. The message of a ValidationError is a constructor, with the
-- index of the step.
pub mod Forward
pub mod Examples
use osscdp.Prelude.{
  ℕ, suc, ◌+◌, ◌≡◌, String, ◌==◌, Bool, true, false, not, ◌&&◌, ◌||◌, Option, none, some, is_some,
  List, [], ◌∷◌, length, eqb, if◌then◌else◌, is_empty, has_prefix, Result, ok, err, ◌>>=◌, ◌>>◌,
  refuse_if, ℤ, is_zero, is_pos, at_most,
}
use osscdp.Runtime.{Runtime}
use osscdp.Segment.Rule.{Rule, rule, Rules, no_rules, rule_cons}
use osscdp.Segment.Window.{WindowError, parse_window}
use osscdp.Segment.Validate.{RuleError, validate}
use osscdp.Journey.Definition.{Branch, Step, step_wait, step_send, step_condition, step_split}

pub data DefinitionError : Type 0 where
  no_steps no_send : DefinitionError
  foreign_fields destination_required rule_required event_field : ℕ → DefinitionError
  bad_duration : ℕ → WindowError → DefinitionError
  bad_rule : ℕ → RuleError → DefinitionError
  not_forward : ℕ → DefinitionError
  two_branches_required : ℕ → DefinitionError
  bad_weight : ℕ → ℕ → DefinitionError
  unknown_type : ℕ → DefinitionError

abbrev pub max_split_weight : ℕ
max_split_weight = 1_000_000

-- referencesEventField
unfoldable mutual
  pub references_event_field : Rule → Bool
  references_event_field (rule f conditions b) =
      has_prefix f.field "event." || any_references_event_field conditions

  pub any_references_event_field : Rules → Bool
  any_references_event_field no_rules = false
  any_references_event_field (rule_cons r rs) =
      references_event_field r || any_references_event_field rs

-- `target > i && target <= n`
abbrev pub is_forward : ℕ → ℕ → ℤ → Bool
is_forward i n target = not (at_most target i) && at_most target n

-- The closure `forward`.
abbrev pub forward : ℕ → ℕ → ℤ → Result DefinitionError (Unit {0})
forward n i target = refuse_if (not (is_forward i n target)) (not_forward i)

-- `if s.Next != 0 { forward(...) }`
abbrev pub optional_forward : ℕ → ℕ → ℤ → Result DefinitionError (Unit {0})
optional_forward n i target = if is_zero target then ok tt else forward n i target

-- The tests of the foreign fields, in the order of the four shapes.
abbrev pub has_condition_fields : Step → Bool
has_condition_fields s = is_some s.condition || not (is_zero s.if_true) || not (is_zero s.if_false)

abbrev pub has_branches : Step → Bool
has_branches s = not (eqb (length s.branches) 0)

abbrev pub has_duration : Step → Bool
has_duration s = not (is_empty s.duration)

abbrev pub has_destination : Step → Bool
has_destination s = not (eqb s.destination_id 0)

-- The loop over the branches of a split; `bi` is its index.
pub validate_branches : ℕ → ℕ → ℕ → List Branch → Result DefinitionError (Unit {0})
validate_branches n i bi [] = ok tt
validate_branches n i bi (b ∷ bs) = do
  refuse_if (not (is_pos b.weight) || not (at_most b.weight max_split_weight)) (bad_weight i bi)
  forward n i b.next
  validate_branches n i (bi + 1) bs

module _ (rt : Runtime) (n : ℕ) where
  pub validate_wait : ℕ → Step → Result DefinitionError Step
  validate_wait i s = do
    refuse_if (has_condition_fields s || has_branches s || has_destination s) (foreign_fields i)
    elim (parse_window rt s.duration) [ ok d ↦ ok tt | err e ↦ err (bad_duration i e) ]
    optional_forward n i s.next
    ok s

  pub validate_send : ℕ → Step → Result DefinitionError Step
  validate_send i s = do
    refuse_if (has_condition_fields s || has_branches s || has_duration s) (foreign_fields i)
    refuse_if (not (has_destination s)) (destination_required i)
    optional_forward n i s.next
    ok s

  -- `segment.Validate(*s.Condition)`, its error wrapped.
  pub validate_condition_rule : ℕ → Rule → Result DefinitionError Rule
  validate_condition_rule i r = elim (validate rt r) [ ok r' ↦ ok r' | err e ↦ err (bad_rule i e) ]

  -- What follows the test of the foreign fields.
  pub validate_rule : ℕ → Step → Option Rule → Result DefinitionError Step
  unfolding references_event_field
  validate_rule i s none = err (rule_required i)
  validate_rule i s (some r) = do
    r' ← validate_condition_rule i r
    refuse_if (references_event_field r) (event_field i)
    forward n i s.if_true
    forward n i s.if_false
    ok (record s { condition = some r' })

  pub validate_condition : ℕ → Step → Result DefinitionError Step
  unfolding validate_rule
  validate_condition i s = do
    refuse_if (has_duration s || has_destination s || not (is_zero s.next) || has_branches s)
        (foreign_fields i)
    validate_rule i s s.condition

  pub validate_split : ℕ → Step → Result DefinitionError Step
  validate_split i s = do
    refuse_if
        (has_duration s || has_destination s || not (is_zero s.next) || has_condition_fields s)
        (foreign_fields i)
    refuse_if (eqb (length s.branches) 0 || eqb (length s.branches) 1) (two_branches_required i)
    validate_branches n i 0 s.branches
    ok s

  -- The `switch s.Type`.
  pub validate_step : ℕ → Step → Result DefinitionError Step
  validate_step i s =
      if s.type_name == step_wait
      then validate_wait i s
      else if s.type_name == step_send
      then validate_send i s
      else if s.type_name == step_condition
      then validate_condition i s
      else if s.type_name == step_split
      then validate_split i s
      else err (unknown_type i)

  -- The loop over the steps, with the index and `hasSend`.
  pub validate_steps : ℕ → Bool → List Step → Result DefinitionError (List Step × Bool)
  validate_steps i has_send [] = ok ([], has_send)
  validate_steps i has_send (s ∷ ss) = do
    s' ← validate_step i s
    (ss', sends) ← validate_steps (suc i) (has_send || s.type_name == step_send) ss
    ok (s' ∷ ss', sends)

pub validate_definition : Runtime → List Step → Result DefinitionError (List Step)
validate_definition rt steps = do
  refuse_if (eqb (length steps) 0) no_steps
  (steps', has_send) ← validate_steps rt (length steps) 0 false steps
  refuse_if (not has_send) no_send
  ok steps'
