-- ===== src/Segment/Validate/Steps.antt =====
-- The clauses of `validate` as equations, for proofs that keep it shut.
use osscdp.Prelude.{◌≡◌, refl, not, ◌||◌, if◌then◌else◌, is_empty, ok, ◌>>=◌, ◌>>◌, refuse_if}
use osscdp.Runtime.{Runtime}
use osscdp.Segment.Rule.{
  RuleFields, BehaviorFields, Rule, rule, Rules, no_rules, rule_cons, MaybeRule, no_rule, some_rule,
  Behavior, behavior, Behaviors, MaybeBehavior, no_behavior, some_behavior, is_logical, is_no_rules,
}
use osscdp.Segment.Validate.{
  unknown_kind, behavior_leaf_fields, logical_fields, is_kind, check_kind, routed_exact,
  check_frequency, check_leaf, check_arity, has_leaf_fields, validate, validate_all,
  validate_behavior, validate_where, validate_anchor,
}

module _ (rt : Runtime) where
  pub validate-behavior_leaf :
      (f : RuleFields) (cs : Rules) (b : Behavior)
      → validate rt (rule f cs (some_behavior b)) ≡ (do
        refuse_if
            (not (is_empty f.operator) || not (is_no_rules cs) || has_leaf_fields f)
            behavior_leaf_fields
        b' ← validate_behavior rt b
        ok (rule f cs (some_behavior b')))
  unfolding validate
  validate-behavior_leaf f cs b = refl

  pub validate-rule :
      (f : RuleFields) (cs : Rules)
      → validate rt (rule f cs no_behavior) ≡ (
          if is_logical f
          then (do
            refuse_if (has_leaf_fields f) logical_fields
            check_arity f cs
            cs' ← validate_all rt cs
            ok (rule f cs' no_behavior))
          else (do check_leaf f; ok (rule f cs no_behavior)))
  unfolding validate
  validate-rule f cs = refl

  pub validate_all-nil : validate_all rt no_rules ≡ ok no_rules
  unfolding validate
  validate_all-nil = refl

  pub validate_all-cons :
      (r : Rule) (rs : Rules)
      → validate_all rt (rule_cons r rs)
        ≡ (do r' ← validate rt r; rs' ← validate_all rt rs; ok (rule_cons r' rs'))
  unfolding validate
  validate_all-cons r rs = refl

  pub validate_behavior-behavior :
      (f : BehaviorFields) (w : MaybeRule) (st : Behaviors) (a : MaybeBehavior)
      → validate_behavior rt (behavior f w st a) ≡ (do
        refuse_if (not (is_kind f.kind)) unknown_kind
        check_kind rt f st
        w' ← validate_where rt w
        a' ← validate_anchor rt a
        check_frequency f w st a
        ok (behavior (record f { exact = routed_exact f w a }) w' st a'))
  unfolding validate
  validate_behavior-behavior f w st a = refl

  pub validate_where-no_rule : validate_where rt no_rule ≡ ok no_rule
  unfolding validate
  validate_where-no_rule = refl

  pub validate_where-some_rule :
      (r : Rule) → validate_where rt (some_rule r) ≡ (do r' ← validate rt r; ok (some_rule r'))
  unfolding validate
  validate_where-some_rule r = refl

  pub validate_anchor-no_behavior : validate_anchor rt no_behavior ≡ ok no_behavior
  unfolding validate
  validate_anchor-no_behavior = refl

  pub validate_anchor-some_behavior :
      (b : Behavior)
      → validate_anchor rt (some_behavior b)
        ≡ (do b' ← validate_behavior rt b; ok (some_behavior b'))
  unfolding validate
  validate_anchor-some_behavior b = refl
