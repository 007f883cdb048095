-- ===== src/Segment/Evaluate.antt =====
-- internal/segment/eval.go: `Evaluate`, `evalBehavior` and `toSpec`. The instant and the runtime are
-- the section's parameters; a nil store is none.
pub mod Steps
pub mod Stateless
pub mod NilStore
pub mod Total
pub mod Examples
use osscdp.Prelude.{
  ℕ, String, ◌==◌, Bool, true, false, not, ◌&&◌, ◌||◌, Option, none, some, is_some, List, [], ◌∷◌,
  ◌++◌, if◌then◌else◌, is_empty, cut_prefix, split_dots, Result, ok, err, ◌>>=◌, ◌>>◌,
}
use osscdp.Runtime.{Runtime}
use osscdp.Runtime.Float.{Float64}
use osscdp.Segment.Rule.{
  op_and, op_or, op_not, behavior_count, behavior_frequency, behavior_recency, behavior_absence,
  behavior_sequence, RuleFields, BehaviorFields, Rule, rule, Rules, no_rules, rule_cons, MaybeRule,
  no_rule, some_rule, Behavior, behavior, Behaviors, MaybeBehavior, no_behavior, some_behavior,
  is_some_rule, is_some_behavior, step_names,
}
use osscdp.Segment.Window.{WindowError, parse_window}
use osscdp.Segment.Store.{
  SpecFields, Spec, spec, MaybeSpec, no_spec, some_spec, EvalError, bad_window, BehaviorStore,
}
use osscdp.Segment.Leaf.{EvalContext, Event, props_event, meets_threshold, leaf_holds}

-- hasBehavior
unfoldable mutual
  pub has_behavior : Rule → Bool
  has_behavior (rule f conditions no_behavior) = any_behavior conditions
  has_behavior (rule f conditions (some_behavior b)) = true

  pub any_behavior : Rules → Bool
  any_behavior no_rules = false
  any_behavior (rule_cons r rs) = has_behavior r || any_behavior rs

mem_name : String → List String → Bool
mem_name s [] = false
mem_name s (n ∷ ns) = s == n || mem_name s ns

-- `out` of referencedPropNames after one more name.
push_name : Option String → List String → List String
unfolding mem_name
push_name none out = out
push_name (some s) out = if is_empty s || mem_name s out then out else out ++ s ∷ []

first_part : List String → String
first_part [] = ""
first_part (p ∷ ps) = p

-- The top-level property that one leaf reads.
top_prop : String → Option String
unfolding first_part
top_prop path = elim (cut_prefix path "event.properties.") [
  | none ↦ none
  | some rest ↦ some (first_part (split_dots rest))
]

-- referencedPropNames, with the names found so far.
mutual
  unfolding push_name top_prop

  prop_names : List String → Rule → List String
  prop_names out (rule f conditions b) =
      all_prop_names (push_name (top_prop f.field) out) conditions

  all_prop_names : List String → Rules → List String
  all_prop_names out no_rules = out
  all_prop_names out (rule_cons r rs) = all_prop_names (prop_names out r) rs

referenced_prop_names : MaybeRule → List String
unfolding prop_names
referenced_prop_names no_rule = []
referenced_prop_names (some_rule r) = prop_names [] r

or_zero : Option Float64 → Float64
or_zero none = 0
or_zero (some v) = v

-- `m, _ := Evaluate(...)`
value_or_false : Result EvalError Bool → Bool
value_or_false (ok m) = m
value_or_false (err e) = false

abbrev value_prop_names : String → List String
value_prop_names p = if is_empty p then [] else p ∷ []

-- `ParseWindow`, its error wrapped.
unfoldable pub spec_window : Runtime → String → Result EvalError ℕ
spec_window rt s = elim (parse_window rt s) [ ok w ↦ ok w | err e ↦ err (bad_window e) ]

module _ (rt : Runtime) (at : ℕ) where
  -- toSpec, given the closure of the filter and the translation of the anchor.
  pub make_spec :
      BehaviorFields
      → MaybeRule
      → Option (String → Bool)
      → Behaviors
      → MaybeBehavior
      → Result EvalError MaybeSpec
      → Result EvalError Spec
  unfolding referenced_prop_names or_zero spec_window
  make_spec f where_rule where_match steps anchor anchor_spec = do
    let is_sequence = f.kind == behavior_sequence
    w ← spec_window rt (if is_sequence then f.within else f.window)
    a ← anchor_spec
    ok (
        spec
          (record {
            event_name = f.event_name;
            window = if is_sequence then 0 else w;
            op = f.op;
            value = or_zero f.value;
            value_prop = f.value_prop;
            within = if is_sequence then w else 0;
            steps = step_names steps;
            exact =
                f.exact
                || is_some_rule where_rule
                || is_some_behavior anchor
                || not (is_empty f.value_prop);
            where_match = where_match;
            drift_props = value_prop_names f.value_prop ++ referenced_prop_names where_rule;
          })
          a)

  -- The switch of evalBehavior.
  pub read_store :
      BehaviorStore → EvalContext → BehaviorFields → MaybeBehavior → Spec → Result EvalError Bool
  read_store s ec f anchor sp =
      if f.kind == behavior_count
      then counted
      else if f.kind == behavior_frequency
      then (if is_empty f.value_prop
          then counted
          else do sum ← s.sum_value tid pid sp at; ok (meets_threshold f sum))
      else if f.kind == behavior_recency
      then s.recent tid pid sp at
      else if f.kind == behavior_absence
      then (if is_some_behavior anchor
          then s.correlated_absent tid pid sp at
          else s.absent tid pid sp at)
      else if f.kind == behavior_sequence
      then s.sequence tid pid sp at
      else ok false
    where
      tid : ℕ
      tid = ec.profile.tenant_id

      pid : ℕ
      pid = ec.profile.id

      counted : Result EvalError Bool
      counted = do n ← s.count tid pid sp at; ok (meets_threshold f (rt.float_of_int n))

  unfoldable mutual
    unfolding make_spec read_store value_or_false

    pub evaluate : Option BehaviorStore → EvalContext → Rule → Result EvalError Bool
    evaluate store ec (rule f conditions b) =
        if f.operator == op_and
        then all_hold store ec conditions
        else if f.operator == op_or
        then any_holds store ec conditions
        else if f.operator == op_not
        then not_holds store ec conditions
        else eval_leaf store ec f b

    pub all_hold : Option BehaviorStore → EvalContext → Rules → Result EvalError Bool
    all_hold store ec no_rules = ok true
    all_hold store ec (rule_cons r rs) = do
      m ← evaluate store ec r
      if m then all_hold store ec rs else ok false

    pub any_holds : Option BehaviorStore → EvalContext → Rules → Result EvalError Bool
    any_holds store ec no_rules = ok false
    any_holds store ec (rule_cons r rs) = do
      m ← evaluate store ec r
      if m then ok true else any_holds store ec rs

    pub not_holds : Option BehaviorStore → EvalContext → Rules → Result EvalError Bool
    not_holds store ec (rule_cons r no_rules) =
        if not (is_some store) && has_behavior r
        then ok false
        else do m ← evaluate store ec r; ok (not m)
    not_holds store ec _ = ok false

    pub eval_leaf :
        Option BehaviorStore → EvalContext → RuleFields → MaybeBehavior → Result EvalError Bool
    eval_leaf store ec f no_behavior = ok (leaf_holds rt f ec)
    eval_leaf store ec f (some_behavior b) = eval_behavior store ec b

    pub eval_behavior : Option BehaviorStore → EvalContext → Behavior → Result EvalError Bool
    eval_behavior store ec (behavior f where_rule steps anchor) = elim store [
      | none ↦ ok false
      | some s ↦ do
        sp ← make_spec f where_rule (where_match ec where_rule) steps anchor (anchor_spec ec anchor)
        read_store s ec f anchor sp
    ]

    -- `spec.WhereMatch`: evaluated with a nil store, an error read as no match.
    pub where_match : EvalContext → MaybeRule → Option (String → Bool)
    where_match ec no_rule = none
    where_match ec (some_rule r) =
        some (λ props. value_or_false (evaluate none (record ec { event = props_event props }) r))

    pub anchor_spec : EvalContext → MaybeBehavior → Result EvalError MaybeSpec
    anchor_spec ec no_behavior = ok no_spec
    anchor_spec ec (some_behavior b) = do sp ← to_spec ec b; ok (some_spec sp)

    pub to_spec : EvalContext → Behavior → Result EvalError Spec
    to_spec ec (behavior f where_rule steps anchor) =
        make_spec f where_rule (where_match ec where_rule) steps anchor (anchor_spec ec anchor)
