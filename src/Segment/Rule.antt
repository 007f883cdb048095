-- ===== src/Segment/Rule.antt =====
-- internal/segment/dsl.go: the rule tree and its operators.
use osscdp.Prelude.{String, ◌==◌, Bool, true, false, ◌||◌, Option, List, [], ◌∷◌}
use osscdp.Runtime.Json.{Value}
use osscdp.Runtime.Float.{Float64}

abbrev pub op_and : String
op_and = "and"

abbrev pub op_or : String
op_or = "or"

abbrev pub op_not : String
op_not = "not"

abbrev pub op_eq : String
op_eq = "eq"

abbrev pub op_neq : String
op_neq = "neq"

abbrev pub op_gt : String
op_gt = "gt"

abbrev pub op_gte : String
op_gte = "gte"

abbrev pub op_lt : String
op_lt = "lt"

abbrev pub op_lte : String
op_lte = "lte"

abbrev pub op_contains : String
op_contains = "contains"

abbrev pub op_not_contains : String
op_not_contains = "not_contains"

abbrev pub op_in : String
op_in = "in"

abbrev pub op_not_in : String
op_not_in = "not_in"

abbrev pub op_exists : String
op_exists = "exists"

abbrev pub op_not_exists : String
op_not_exists = "not_exists"

-- The keys of `comparisonOps`.
unfoldable pub is_comparison_op : String → Bool
is_comparison_op op =
    op == op_eq
    || op == op_neq
    || op == op_gt
    || op == op_gte
    || op == op_lt
    || op == op_lte
    || op == op_contains
    || op == op_not_contains
    || op == op_in
    || op == op_not_in
    || op == op_exists
    || op == op_not_exists

-- `behaviorCountOps`
unfoldable pub is_count_op : String → Bool
is_count_op op = op == op_gte || op == op_gt || op == op_lte || op == op_lt || op == op_eq

abbrev pub behavior_count : String
behavior_count = "count"

abbrev pub behavior_frequency : String
behavior_frequency = "frequency"

abbrev pub behavior_recency : String
behavior_recency = "recency"

abbrev pub behavior_absence : String
behavior_absence = "absence"

abbrev pub behavior_sequence : String
behavior_sequence = "sequence"

-- The fields of a Rule that hold no rule. `Operator` is `operator`, an absent `Value` is null.
pub record RuleFields : Type 0 where
  pub operator : String
  pub field : String
  pub op : String
  pub value : Value

-- The fields of a BehaviorSpec that hold no rule and no behavior.
pub record BehaviorFields : Type 0 where
  pub kind : String
  pub event_name : String
  pub window : String
  pub op : String
  pub value : Option Float64
  pub value_prop : String
  pub within : String
  pub exact : Bool

-- Rule and BehaviorSpec name one another, through slices and pointers: a slice is `Rules` or
-- `Behaviors`, and a pointer that may be nil is `MaybeRule` or `MaybeBehavior`.
mutual
  -- The fields, `Conditions`, `Behavior`.
  pub data Rule : Type 0 where
    rule : RuleFields → Rules → MaybeBehavior → Rule

  pub data Rules : Type 0 where
    no_rules : Rules
    rule_cons : Rule → Rules → Rules

  pub data MaybeRule : Type 0 where
    no_rule : MaybeRule
    some_rule : Rule → MaybeRule

  -- The fields, `Where`, `Steps`, `Anchor`.
  pub data Behavior : Type 0 where
    behavior : BehaviorFields → MaybeRule → Behaviors → MaybeBehavior → Behavior

  pub data Behaviors : Type 0 where
    no_behaviors : Behaviors
    behavior_cons : Behavior → Behaviors → Behaviors

  pub data MaybeBehavior : Type 0 where
    no_behavior : MaybeBehavior
    some_behavior : Behavior → MaybeBehavior

abbrev pub is_logical : RuleFields → Bool
is_logical r = r.operator == op_and || r.operator == op_or || r.operator == op_not

-- `len(r.Conditions) == 1`
abbrev pub is_single : Rules → Bool
is_single (rule_cons r no_rules) = true
is_single _ = false

-- `len(r.Conditions) == 0`
abbrev pub is_no_rules : Rules → Bool
is_no_rules no_rules = true
is_no_rules (rule_cons r rs) = false

abbrev pub is_some_rule : MaybeRule → Bool
is_some_rule no_rule = false
is_some_rule (some_rule r) = true

abbrev pub is_some_behavior : MaybeBehavior → Bool
is_some_behavior no_behavior = false
is_some_behavior (some_behavior b) = true

-- `b.EventName`, and the names of `b.Steps` in order.
abbrev pub event_name : Behavior → String
event_name (behavior f w steps anchor) = f.event_name

abbrev pub step_names : Behaviors → List String
step_names no_behaviors = []
step_names (behavior_cons b bs) = event_name b ∷ step_names bs
