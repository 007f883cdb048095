-- ===== src/Segment/Validate.antt =====
-- internal/segment/dsl.go: `Validate` and `validateBehavior`. They write `Exact` through pointers:
-- here a rule that passes comes back with what they wrote. The message of a ValidationError is a
-- constructor.
pub mod Steps
pub mod Windows
use osscdp.Prelude.{
  ℕ, String, ◌==◌, Bool, true, false, not, ◌&&◌, ◌||◌, Option, none, some, is_some, List, [], ◌∷◌,
  ◌++◌, if◌then◌else◌, is_empty, Result, ok, err, ◌>>=◌, ◌>>◌, refuse_if,
}
use osscdp.Runtime.{Runtime}
use osscdp.Runtime.Json.{is_null, is_array}
use osscdp.Segment.Rule.{
  op_not, op_in, op_not_in, op_exists, op_not_exists, is_comparison_op, is_count_op, behavior_count,
  behavior_frequency, behavior_recency, behavior_absence, behavior_sequence, RuleFields,
  BehaviorFields, Rule, rule, Rules, no_rules, rule_cons, MaybeRule, no_rule, some_rule, Behavior,
  behavior, Behaviors, no_behaviors, behavior_cons, MaybeBehavior, no_behavior, some_behavior,
  is_logical, is_single, is_no_rules, is_some_rule, is_some_behavior, event_name, step_names,
}
use osscdp.Segment.Window.{WindowError, parse_window}

pub data RuleError : Type 0 where
  unknown_kind event_name_required bad_count_op value_required : RuleError
  bad_window : WindowError → RuleError
  two_steps_required step_event_name_required too_high_frequency : RuleError
  behavior_leaf_fields logical_fields one_condition_required conditions_required : RuleError
  unknown_logical_operator field_required unknown_operator : RuleError
  value_forbidden array_required leaf_value_required : RuleError

-- `highFrequencyEvents` is an empty map.
is_high_frequency : String → Bool
is_high_frequency name = false

any_high_frequency : List String → Bool
unfolding is_high_frequency
any_high_frequency [] = false
any_high_frequency (name ∷ names) = is_high_frequency name || any_high_frequency names

abbrev pub is_kind : String → Bool
is_kind kind =
    kind == behavior_count
    || kind == behavior_frequency
    || kind == behavior_recency
    || kind == behavior_absence
    || kind == behavior_sequence

abbrev pub is_count_or_frequency : String → Bool
is_count_or_frequency kind = kind == behavior_count || kind == behavior_frequency

abbrev pub is_recency_or_absence : String → Bool
is_recency_or_absence kind = kind == behavior_recency || kind == behavior_absence

abbrev has_two : Behaviors → Bool
has_two (behavior_cons b (behavior_cons c bs)) = true
has_two _ = false

steps_named : Behaviors → Bool
steps_named no_behaviors = true
steps_named (behavior_cons b bs) = not (is_empty (event_name b)) && steps_named bs

-- `b.Exact` after the routing of the shapes that buckets aggregate away.
abbrev pub routed_exact : BehaviorFields → MaybeRule → MaybeBehavior → Bool
routed_exact f where_rule anchor =
    f.kind == behavior_sequence || is_some_rule where_rule || is_some_behavior anchor || f.exact

anchor_name : MaybeBehavior → List String
anchor_name no_behavior = []
anchor_name (some_behavior a) = event_name a ∷ []

-- The guard against too hot event names.
pub check_frequency :
    BehaviorFields → MaybeRule → Behaviors → MaybeBehavior → Result RuleError (Unit {0})
unfolding any_high_frequency anchor_name
check_frequency f where_rule steps anchor =
    refuse_if
      (routed_exact f where_rule anchor
        && any_high_frequency (f.event_name ∷ (step_names steps ++ anchor_name anchor)))
      too_high_frequency

-- The last `switch r.Op` of a comparison leaf.
check_leaf_value : RuleFields → Result RuleError (Unit {0})
check_leaf_value f =
    if f.op == op_exists || f.op == op_not_exists
    then refuse_if (not (is_null f.value)) value_forbidden
    else if f.op == op_in || f.op == op_not_in
    then refuse_if (not (is_array f.value)) array_required
    else refuse_if (is_null f.value) leaf_value_required

pub check_leaf : RuleFields → Result RuleError (Unit {0})
unfolding is_comparison_op check_leaf_value
check_leaf f = do
  refuse_if (not (is_empty f.operator)) unknown_logical_operator
  refuse_if (is_empty f.field) field_required
  refuse_if (not (is_comparison_op f.op)) unknown_operator
  check_leaf_value f

pub check_arity : RuleFields → Rules → Result RuleError (Unit {0})
check_arity f conditions =
    if f.operator == op_not
    then refuse_if (not (is_single conditions)) one_condition_required
    else refuse_if (is_no_rules conditions) conditions_required

abbrev pub has_leaf_fields : RuleFields → Bool
has_leaf_fields f = not (is_empty f.field) || not (is_empty f.op) || not (is_null f.value)

module _ (rt : Runtime) where
  -- `_, err := ParseWindow(s)`, wrapped.
  pub check_window : String → Result RuleError (Unit {0})
  check_window s = elim (parse_window rt s) [ ok w ↦ ok tt | err e ↦ err (bad_window e) ]

  -- The second `switch b.Kind`.
  pub check_kind : BehaviorFields → Behaviors → Result RuleError (Unit {0})
  unfolding check_window is_count_op steps_named
  check_kind f steps =
      if is_count_or_frequency f.kind
      then (do
        refuse_if (is_empty f.event_name) event_name_required
        refuse_if (not (is_count_op f.op)) bad_count_op
        refuse_if (not (is_some f.value)) value_required
        check_window f.window)
      else if is_recency_or_absence f.kind
      then (do refuse_if (is_empty f.event_name) event_name_required; check_window f.window)
      else (do
        refuse_if (not (has_two steps)) two_steps_required
        refuse_if (not (steps_named steps)) step_event_name_required
        check_window f.within)

  unfoldable mutual
    unfolding check_kind check_frequency check_leaf check_arity

    pub validate : Rule → Result RuleError Rule
    validate (rule f conditions (some_behavior b)) = do
      refuse_if (not (is_empty f.operator) || not (is_no_rules conditions) || has_leaf_fields f)
          behavior_leaf_fields
      b' ← validate_behavior b
      ok (rule f conditions (some_behavior b'))
    validate (rule f conditions no_behavior) =
        if is_logical f
        then (do
          refuse_if (has_leaf_fields f) logical_fields
          check_arity f conditions
          conditions' ← validate_all conditions
          ok (rule f conditions' no_behavior))
        else (do check_leaf f; ok (rule f conditions no_behavior))

    pub validate_all : Rules → Result RuleError Rules
    validate_all no_rules = ok no_rules
    validate_all (rule_cons r rs) = do r' ← validate r; rs' ← validate_all rs; ok (rule_cons r' rs')

    pub validate_behavior : Behavior → Result RuleError Behavior
    validate_behavior (behavior f where_rule steps anchor) = do
      refuse_if (not (is_kind f.kind)) unknown_kind
      check_kind f steps
      where_rule' ← validate_where where_rule
      anchor' ← validate_anchor anchor
      check_frequency f where_rule steps anchor
      ok (
          behavior (record f { exact = routed_exact f where_rule anchor }) where_rule' steps
            anchor')

    pub validate_where : MaybeRule → Result RuleError MaybeRule
    validate_where no_rule = ok no_rule
    validate_where (some_rule r) = do r' ← validate r; ok (some_rule r')

    pub validate_anchor : MaybeBehavior → Result RuleError MaybeBehavior
    validate_anchor no_behavior = ok no_behavior
    validate_anchor (some_behavior b) = do b' ← validate_behavior b; ok (some_behavior b')
