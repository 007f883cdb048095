-- ===== src/Segment/Evaluate/NilStore.antt =====
-- Evaluation with a nil store, which leaves behavioral leaves inert.
use osscdp.Prelude.{ℕ, ◌≡◌, Bool, true, false, none, some, arith, ok, is_ok}
use osscdp.Runtime.{Runtime}
use osscdp.Segment.Rule.{Rule, rule, Rules, no_rules, rule_cons, no_behavior, some_behavior}
use osscdp.Segment.Store.{BehaviorStore}
use osscdp.Segment.Leaf.{EvalContext}
use osscdp.Segment.Evaluate.{evaluate, all_hold, any_holds, not_holds}
use osscdp.Segment.Evaluate.Steps.{
  evaluate-rule, all_hold-nil, all_hold-cons, any_holds-nil, any_holds-cons, not_holds-nil,
  not_holds-single, not_holds-more, eval_leaf-comparison, eval_leaf-nil,
}
use osscdp.Segment.Evaluate.Stateless.{evaluate-stateless}

module _ (rt : Runtime) (at : ℕ) (ec : EvalContext) where
  mutual
    evaluate_nil : (r : Rule) → is_ok (evaluate rt at none ec r) ≡ true
    evaluate_nil (rule f cs no_behavior) = rw (evaluate-rule rt at none ec f cs no_behavior) (
        ground (
          arith,
          eval_leaf-comparison rt at none ec f,
          all_hold_nil cs,
          any_holds_nil cs,
          not_holds_nil cs,
        ))
    evaluate_nil (rule f cs (some_behavior b)) =
        rw (evaluate-rule rt at none ec f cs (some_behavior b)) (
          ground (
            arith,
            eval_leaf-nil rt at ec f b,
            all_hold_nil cs,
            any_holds_nil cs,
            not_holds_nil cs,
          ))

    all_hold_nil : (rs : Rules) → is_ok (all_hold rt at none ec rs) ≡ true
    all_hold_nil no_rules = rw (all_hold-nil rt at none ec)
    all_hold_nil (rule_cons r rs) =
        rw (all_hold-cons rt at none ec r rs) (ground (arith, evaluate_nil r, all_hold_nil rs))

    any_holds_nil : (rs : Rules) → is_ok (any_holds rt at none ec rs) ≡ true
    any_holds_nil no_rules = rw (any_holds-nil rt at none ec)
    any_holds_nil (rule_cons r rs) =
        rw (any_holds-cons rt at none ec r rs) (ground (arith, evaluate_nil r, any_holds_nil rs))

    not_holds_nil : (rs : Rules) → is_ok (not_holds rt at none ec rs) ≡ true
    not_holds_nil no_rules = rw (not_holds-nil rt at none ec)
    not_holds_nil (rule_cons r no_rules) =
        rw (not_holds-single rt at none ec r) (ground (arith, evaluate_nil r))
    not_holds_nil (rule_cons r (rule_cons r' rs)) = rw (not_holds-more rt at none ec r r' rs)

  module _ (s : BehaviorStore) where
    mutual
      nil_sound :
          (r : Rule) (b : Bool)
          → evaluate rt at none ec r ≡ ok true
          → evaluate rt at (some s) ec r ≡ ok b
          → b ≡ true
      nil_sound (rule f cs no_behavior) b h k = ground (
        arith,
        evaluate-rule rt at none ec f cs no_behavior,
        evaluate-rule rt at (some s) ec f cs no_behavior,
        eval_leaf-comparison rt at none ec f,
        eval_leaf-comparison rt at (some s) ec f,
        all_sound cs b,
        any_sound cs b,
        not_sound cs b,
      )
      nil_sound (rule f cs (some_behavior g)) b h k = ground (
        arith,
        evaluate-rule rt at none ec f cs (some_behavior g),
        evaluate-rule rt at (some s) ec f cs (some_behavior g),
        eval_leaf-nil rt at ec f g,
        all_sound cs b,
        any_sound cs b,
        not_sound cs b,
      )

      all_sound :
          (rs : Rules) (b : Bool)
          → all_hold rt at none ec rs ≡ ok true
          → all_hold rt at (some s) ec rs ≡ ok b
          → b ≡ true
      all_sound no_rules b h k = ground (arith, all_hold-nil rt at (some s) ec)
      all_sound (rule_cons r rs) b h k = ground (
        arith,
        all_hold-cons rt at none ec r rs,
        all_hold-cons rt at (some s) ec r rs,
        nil_sound r false,
        all_sound rs b,
      )

      any_sound :
          (rs : Rules) (b : Bool)
          → any_holds rt at none ec rs ≡ ok true
          → any_holds rt at (some s) ec rs ≡ ok b
          → b ≡ true
      any_sound no_rules b h k = ground (arith, any_holds-nil rt at none ec)
      any_sound (rule_cons r rs) b h k = ground (
        arith,
        any_holds-cons rt at none ec r rs,
        any_holds-cons rt at (some s) ec r rs,
        nil_sound r false,
        any_sound rs b,
      )

      not_sound :
          (rs : Rules) (b : Bool)
          → not_holds rt at none ec rs ≡ ok true
          → not_holds rt at (some s) ec rs ≡ ok b
          → b ≡ true
      not_sound no_rules b h k = ground (arith, not_holds-nil rt at none ec)
      not_sound (rule_cons r no_rules) b h k = ground (
        arith,
        not_holds-single rt at none ec r,
        not_holds-single rt at (some s) ec r,
        evaluate-stateless rt at (some s) ec r,
        evaluate-stateless rt at none ec r,
      )
      not_sound (rule_cons r (rule_cons r' rs)) b h k =
          ground (arith, not_holds-more rt at none ec r r' rs)

  -- Without a store every rule is evaluated with no error.
  pub evaluate-nil_store_ok : (r : Rule) → is_ok (evaluate rt at none ec r) ≡ true
  evaluate-nil_store_ok r = evaluate_nil r

  -- A rule that matches without a store matches with every store under which its evaluation does
  -- not fail: an inert behavioral leaf, negated or not, makes no match of its own.
  pub evaluate-nil_store_sound :
      (r : Rule) (s : BehaviorStore) (b : Bool)
      → evaluate rt at none ec r ≡ ok true
      → evaluate rt at (some s) ec r ≡ ok b
      → b ≡ true
  evaluate-nil_store_sound r s b h k = nil_sound s r b h k
