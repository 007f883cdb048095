-- ===== src/Samples.antt =====
-- Concrete values for the tests: a runtime, a store of events, a profile, and the parts of rules.
use osscdp.Prelude.{String, true, false, none, some, ok}
use osscdp.Runtime.{Runtime}
use osscdp.Runtime.Json.{Value, null, text}
use osscdp.Segment.Rule.{
  RuleFields, BehaviorFields, Rule, rule, no_rules, rule_cons, Behavior, behavior, no_rule,
  no_behaviors, no_behavior, some_behavior,
}
use osscdp.Segment.Store.{BehaviorStore}
use osscdp.Segment.Leaf.{Profile, EvalContext}

-- A runtime that parses no number and formats a text as it is.
abbrev sample_sprint : Value → String
sample_sprint (text s) = s
sample_sprint _ = ""

abbrev pub sample_runtime : Runtime
sample_runtime = record {
  parse_float = λ s. none;
  sprint = sample_sprint;
  float_of_int = λ n. 0x4008000000000000;
  int_of_float = λ f. 3;
  parse_duration = λ s. none;
  format_time = λ t. "";
  unmarshal = λ s. none;
}

-- A store with three events of every name, the last at the instant 1000.
abbrev pub sample_store : BehaviorStore
sample_store = record {
  count = λ t p s at. ok 3;
  recent = λ t p s at. ok true;
  absent = λ t p s at. ok false;
  correlated_absent = λ t p s at. ok false;
  sequence = λ t p s at. ok false;
  sum_value = λ t p s at. ok 0;
  last_at = λ t p name at. ok (some 1000);
  nth_newest_in_window = λ t p name w n at. ok none;
}

abbrev pub sample_profile : Profile
sample_profile = record {
  id = 7;
  tenant_id = 1;
  canonical_user_id = "u1";
  traits = none;
  computed_attributes = none;
  first_seen_at = none;
  last_seen_at = none;
}

abbrev pub sample_context : EvalContext
sample_context = record {
  profile = sample_profile;
  event = record { event_name = "login"; type_name = "track"; properties = ""; context = "" };
}

abbrev pub logical : String → RuleFields
logical operator = record { operator = operator; field = ""; op = ""; value = null }

abbrev pub compare_user : String → String → Rule
compare_user op user =
    rule (record { operator = ""; field = "profile.canonical_user_id"; op = op; value = text user })
      no_rules no_behavior

abbrev pub behavior_fields : String → String → BehaviorFields
behavior_fields kind window = record {
  kind = kind;
  event_name = "login";
  window = window;
  op = "gte";
  value = some 0x4000000000000000;
  value_prop = "";
  within = "";
  exact = false;
}

abbrev pub behavioral : String → String → Behavior
behavioral kind window = behavior (behavior_fields kind window) no_rule no_behaviors no_behavior

abbrev pub leaf_of : Behavior → Rule
leaf_of b = rule (logical "") no_rules (some_behavior b)

abbrev pub pair_of : String → Rule → Rule → Rule
pair_of operator r r' = rule (logical operator) (rule_cons r (rule_cons r' no_rules)) no_behavior
