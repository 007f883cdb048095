-- ===== src/Segment/Evaluate/Stateless.antt =====
-- Rules with no behavioral leaf, against their Boolean reading.
use osscdp.Prelude.{
  ℕ, ◌≡◌, ◌==◌, Bool, true, false, not, ◌&&◌, ◌||◌, Option, arith, if◌then◌else◌, ok,
}
use osscdp.Runtime.{Runtime}
use osscdp.Segment.Rule.{
  op_and, op_or, op_not, Rule, rule, Rules, no_rules, rule_cons, no_behavior, some_behavior,
}
use osscdp.Segment.Store.{BehaviorStore}
use osscdp.Segment.Leaf.{EvalContext, leaf_holds}
use osscdp.Segment.Evaluate.Steps.{
  has_behavior-inner, has_behavior-behavior, any_behavior-cons, evaluate-rule, all_hold-nil,
  all_hold-cons, any_holds-nil, any_holds-cons, not_holds-nil, not_holds-single, not_holds-more,
  eval_leaf-comparison,
}
use osscdp.Segment.Evaluate.{has_behavior, any_behavior, evaluate, all_hold, any_holds, not_holds}

module _ (rt : Runtime) where
  -- The reading of a stateless rule: `and`, `or` and `not` are the Boolean ones.
  unfoldable mutual
    pub holds : EvalContext → Rule → Bool
    holds ec (rule f conditions b) =
        if f.operator == op_and
        then every ec conditions
        else if f.operator == op_or
        then exists ec conditions
        else if f.operator == op_not
        then negated ec conditions
        else leaf_holds rt f ec

    pub every : EvalContext → Rules → Bool
    every ec no_rules = true
    every ec (rule_cons r rs) = holds ec r && every ec rs

    pub exists : EvalContext → Rules → Bool
    exists ec no_rules = false
    exists ec (rule_cons r rs) = holds ec r || exists ec rs

    pub negated : EvalContext → Rules → Bool
    negated ec (rule_cons r no_rules) = not (holds ec r)
    negated ec _ = false

  module _ (at : ℕ) (store : Option BehaviorStore) (ec : EvalContext) where
    mutual
      unfolding holds

      evaluate-holds :
          (r : Rule) → has_behavior r ≡ false → evaluate rt at store ec r ≡ ok (holds ec r)
      evaluate-holds (rule f cs no_behavior) h =
          let inner = has_behavior-inner f cs in
          rw (evaluate-rule rt at store ec f cs no_behavior) (
            ground (
              arith,
              eval_leaf-comparison rt at store ec f,
              all_hold-every cs,
              any_holds-exists cs,
              not_holds-negated cs,
            ))
      evaluate-holds (rule f cs (some_behavior b)) h = absurd (cc (has_behavior-behavior f cs b))

      all_hold-every :
          (rs : Rules) → any_behavior rs ≡ false → all_hold rt at store ec rs ≡ ok (every ec rs)
      all_hold-every no_rules h = all_hold-nil rt at store ec
      all_hold-every (rule_cons r rs) h =
          let split = any_behavior-cons r rs in
          rw (all_hold-cons rt at store ec r rs)
            (ground (arith, evaluate-holds r, all_hold-every rs))

      any_holds-exists :
          (rs : Rules) → any_behavior rs ≡ false → any_holds rt at store ec rs ≡ ok (exists ec rs)
      any_holds-exists no_rules h = any_holds-nil rt at store ec
      any_holds-exists (rule_cons r rs) h =
          let split = any_behavior-cons r rs in
          rw (any_holds-cons rt at store ec r rs)
            (ground (arith, evaluate-holds r, any_holds-exists rs))

      not_holds-negated :
          (rs : Rules) → any_behavior rs ≡ false → not_holds rt at store ec rs ≡ ok (negated ec rs)
      not_holds-negated no_rules h = not_holds-nil rt at store ec
      not_holds-negated (rule_cons r no_rules) h =
          let split = any_behavior-cons r no_rules in
          rw (not_holds-single rt at store ec r) (ground (arith, evaluate-holds r))
      not_holds-negated (rule_cons r (rule_cons r' rs)) h = not_holds-more rt at store ec r r' rs

  -- A rule with no behavioral leaf is evaluated without an error to its Boolean reading, the same
  -- with any store, with none, and at any instant.
  pub evaluate-stateless :
      (at : ℕ) (store : Option BehaviorStore) (ec : EvalContext) (r : Rule)
      → has_behavior r ≡ false
      → evaluate rt at store ec r ≡ ok (holds ec r)
  evaluate-stateless at store ec r h = evaluate-holds at store ec r h
