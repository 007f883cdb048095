-- ===== src/Segment/Leaf.antt =====
-- internal/segment/eval.go: what a comparison leaf reads of a profile and an event, and how it
-- compares. `Evaluate` itself is Segment/Evaluate.antt.
use osscdp.Prelude.{
  ℕ, String, ◌==◌, Bool, false, not, ◌&&◌, ◌||◌, Option, none, some, is_some, List, [], ◌∷◌,
  if◌then◌else◌, is_empty, cut_prefix, contains, split_dots,
}
use osscdp.Runtime.{Runtime}
use osscdp.Runtime.Float.{Float64, float_lt, float_le, float_eq}
use osscdp.Runtime.Json.{
  Value, text, array, object, number, integer, Items, nil, cons, Fields, get_field,
}
use osscdp.Segment.Rule.{
  op_eq, op_neq, op_gt, op_gte, op_lt, op_lte, op_contains, op_not_contains, op_in, op_not_in,
  op_exists, op_not_exists, RuleFields, BehaviorFields,
}

-- The fields of profile.Profile that rules read. A map that is nil is none.
pub record Profile : Type 0 where
  pub id : ℕ
  pub tenant_id : ℕ
  pub canonical_user_id : String
  pub traits : Option Fields
  pub computed_attributes : Option Fields
  pub first_seen_at : Option ℕ
  pub last_seen_at : Option ℕ

-- The fields of events.Envelope that rules read; the last two are raw JSON.
pub record Event : Type 0 where
  pub event_name : String
  pub type_name : String
  pub properties : String
  pub context : String

pub record EvalContext : Type 0 where
  pub profile : Profile
  pub event : Event

-- `events.Envelope{Properties: props}`
abbrev pub props_event : String → Event
props_event props = record { event_name = ""; type_name = ""; properties = props; context = "" }

-- matchCount
unfoldable pub match_count : String → Float64 → Float64 → Bool
match_count op got want =
    if op == op_gte
    then float_le want got
    else if op == op_gt
    then float_lt want got
    else if op == op_lte
    then float_le got want
    else if op == op_lt
    then float_lt got want
    else op == op_eq && float_eq got want

-- `b.Value != nil && matchCount(b.Op, got, *b.Value)`
unfoldable pub meets_threshold : BehaviorFields → Float64 → Bool
unfolding match_count
meets_threshold f got = elim f.value [ none ↦ false | some want ↦ match_count f.op got want ]

-- The loop of nestedGet over the parts of the path.
walk_path : Value → List String → Option Value
walk_path v [] = some v
walk_path (object m) (p ∷ ps) = elim (get_field p m) [ none ↦ none | some v ↦ walk_path v ps ]
walk_path _ (p ∷ ps) = none

nested_get : Option Fields → String → Option Value
unfolding walk_path
nested_get none path = none
nested_get (some m) path = walk_path (object m) (split_dots path)

non_empty : String → Option Value
non_empty s = if is_empty s then none else some (text s)

abbrev or_else {ℓ} : {A : Type ℓ} → Option A → A → A
or_else none d = d
or_else (some a) d = a

module _ (rt : Runtime) where
  -- decodeJSON
  decode_json : String → Option Fields
  decode_json raw = if is_empty raw then none else rt.unmarshal raw

  formatted : Option ℕ → Option Value
  formatted none = none
  formatted (some t) = some (text (rt.format_time t))

  -- resolveField: none where Go returns false.
  resolve_field : String → EvalContext → Option Value
  unfolding nested_get decode_json formatted non_empty
  resolve_field path ec = elim (cut_prefix path "profile.traits.") [
    | some p ↦ nested_get ec.profile.traits p
    | none ↦ elim (cut_prefix path "profile.computed_attributes.") [
      | some p ↦ nested_get ec.profile.computed_attributes p
      | none ↦
          if path == "profile.canonical_user_id"
          then non_empty ec.profile.canonical_user_id
          else if path == "profile.first_seen_at"
          then formatted ec.profile.first_seen_at
          else if path == "profile.last_seen_at"
          then formatted ec.profile.last_seen_at
          else if path == "event.event_name"
          then non_empty ec.event.event_name
          else if path == "event.type"
          then non_empty ec.event.type_name
          else elim (cut_prefix path "event.properties.") [
            | some p ↦ nested_get (decode_json ec.event.properties) p
            | none ↦ elim (cut_prefix path "event.context.") [
              | some p ↦ nested_get (decode_json ec.event.context) p
              | none ↦ none
            ]
          ]
    ]
  ]

  -- toFloat
  to_float : Value → Option Float64
  to_float (number f) = some f
  to_float (integer n) = some (rt.float_of_int n)
  to_float (text s) = rt.parse_float s
  to_float _ = none

  both_floats : Value → Value → Option (Float64 × Float64)
  unfolding to_float
  both_floats a b = elim (to_float a) [
    | none ↦ none
    | some fa ↦ elim (to_float b) [ none ↦ none | some fb ↦ some (fa, fb) ]
  ]

  -- valuesEqual
  values_equal : Value → Value → Bool
  unfolding both_floats
  values_equal a b = elim (both_floats a b) [
    | some (fa, fb) ↦ float_eq fa fb
    | none ↦ rt.sprint a == rt.sprint b
  ]

  -- numericCompare
  numeric_compare : String → Value → Value → Bool
  unfolding both_floats
  numeric_compare op a b = elim (both_floats a b) [
    | none ↦ false
    | some (fa, fb) ↦
        if op == op_gt
        then float_lt fb fa
        else if op == op_gte
        then float_le fb fa
        else if op == op_lt
        then float_lt fa fb
        else op == op_lte && float_le fa fb
  ]

  -- containsAny
  contains_any : Items → Value → Bool
  unfolding values_equal
  contains_any nil target = false
  contains_any (cons e es) target = values_equal e target || contains_any es target

  -- inArray
  in_array : Value → Value → Bool
  unfolding contains_any
  in_array v (array xs) = contains_any xs v
  in_array v _ = false

  -- containsVal
  contains_val : Value → Value → Bool
  unfolding in_array
  contains_val (array xs) rule_val = in_array rule_val (array xs) || contains_any xs rule_val
  contains_val v rule_val = contains (rt.sprint v) (rt.sprint rule_val)

  -- The second switch of applyOp, for a value that is present.
  apply_present : String → Value → Value → Bool
  unfolding contains_val numeric_compare
  apply_present op v rule_val =
      if op == op_eq
      then values_equal v rule_val
      else if op == op_neq
      then not (values_equal v rule_val)
      else if op == op_gt || op == op_gte || op == op_lt || op == op_lte
      then numeric_compare op v rule_val
      else if op == op_contains
      then contains_val v rule_val
      else if op == op_not_contains
      then not (contains_val v rule_val)
      else if op == op_in
      then in_array v rule_val
      else op == op_not_in && not (in_array v rule_val)

  -- applyOp
  unfoldable pub apply_op : String → Option Value → Value → Bool
  unfolding apply_present
  apply_op op found rule_val =
      if op == op_exists
      then is_some found
      else if op == op_not_exists
      then not (is_some found)
      else elim found [ none ↦ false | some v ↦ apply_present op v rule_val ]

  -- The last two lines of Evaluate.
  unfoldable pub leaf_holds : RuleFields → EvalContext → Bool
  unfolding apply_op resolve_field
  leaf_holds f ec = apply_op f.op (resolve_field f.field ec) f.value
