-- ===== src/Segment/Evaluate/Total.antt =====
-- Rules that pass validation are evaluated without an error, if the store answers.
use osscdp.Prelude.{
  ℕ, String, ◌≡◌, ◌==◌, Bool, true, Option, some, arith, Result, ok, err, is_ok, is_ok-cases,
  if◌then◌else◌, eq-empty,
}
use osscdp.Runtime.{Runtime}
use osscdp.Segment.Rule.{
  RuleFields, BehaviorFields, Rule, rule, Rules, no_rules, rule_cons, MaybeRule, Behavior, behavior,
  Behaviors, MaybeBehavior, no_behavior, some_behavior, behavior_sequence, op_and, op_or, op_not,
}
use osscdp.Segment.Store.{Spec, MaybeSpec, BehaviorStore}
use osscdp.Segment.Leaf.{EvalContext}
use osscdp.Segment.Window.{parse_window}
use osscdp.Segment.Validate.{validate, validate_all, validate_behavior, validate_anchor}
use osscdp.Segment.Validate.Windows.{check_kind-window}
use osscdp.Segment.Validate.Steps.{
  validate-behavior_leaf, validate-rule, validate_all-cons, validate_behavior-behavior,
  validate_anchor-some_behavior,
}
use osscdp.Segment.Evaluate.{
  make_spec, read_store, evaluate, all_hold, any_holds, not_holds, eval_leaf, to_spec, anchor_spec,
  where_match,
}
use osscdp.Segment.Evaluate.Steps.{
  evaluate-rule, all_hold-nil, all_hold-cons, any_holds-nil, any_holds-cons, not_holds-nil,
  not_holds-single, not_holds-more, eval_leaf-comparison, eval_leaf-store, to_spec-behavior,
  anchor_spec-no_behavior, anchor_spec-some_behavior,
}

-- No read of the store fails.
pub record Answers (s : BehaviorStore) : Type 0 where
  pub count : (t p : ℕ) (sp : Spec) (at : ℕ) → is_ok (s.count t p sp at) ≡ true
  pub recent : (t p : ℕ) (sp : Spec) (at : ℕ) → is_ok (s.recent t p sp at) ≡ true
  pub absent : (t p : ℕ) (sp : Spec) (at : ℕ) → is_ok (s.absent t p sp at) ≡ true
  pub correlated_absent :
      (t p : ℕ) (sp : Spec) (at : ℕ) → is_ok (s.correlated_absent t p sp at) ≡ true
  pub sequence : (t p : ℕ) (sp : Spec) (at : ℕ) → is_ok (s.sequence t p sp at) ≡ true
  pub sum_value : (t p : ℕ) (sp : Spec) (at : ℕ) → is_ok (s.sum_value t p sp at) ≡ true

module _ (rt : Runtime) (at : ℕ) (s : BehaviorStore) (answers : Answers s) (ec : EvalContext) where
  read_store-ok :
      (f : BehaviorFields) (a : MaybeBehavior) (sp : Spec)
      → is_ok (read_store rt at s ec f a sp) ≡ true
  unfolding read_store
  read_store-ok f a sp =
      let t = ec.profile.tenant_id in
      let p = ec.profile.id in
      ground (
        arith,
        answers.count t p sp at,
        answers.recent t p sp at,
        answers.absent t p sp at,
        answers.correlated_absent t p sp at,
        answers.sequence t p sp at,
        answers.sum_value t p sp at,
      )

module _ (rt : Runtime) (at : ℕ) where
  make_spec-ok :
      (f : BehaviorFields) (w : MaybeRule) (m : Option (String → Bool)) (st : Behaviors)
      (a : MaybeBehavior) (asp : Result _ MaybeSpec)
      → is_ok (parse_window rt (if f.kind == behavior_sequence then f.within else f.window)) ≡ true
      → is_ok asp ≡ true
      → is_ok (make_spec rt at f w m st a asp) ≡ true
  unfolding make_spec
  make_spec-ok f w m st a (ok asp) h k = ground arith
  make_spec-ok f w m st a (err e) h k = absurd (ground arith)

module _ (rt : Runtime) (at : ℕ) (s : BehaviorStore) (answers : Answers s) (ec : EvalContext) where
  mutual
    to_spec-ok :
        (b : Behavior) → is_ok (validate_behavior rt b) ≡ true → is_ok (to_spec rt at ec b) ≡ true
    to_spec-ok (behavior f w st a) h = rw (to_spec-behavior rt at ec f w st a) (
        ground (
          arith,
          validate_behavior-behavior rt f w st a,
          check_kind-window rt f st,
          anchor_spec-ok a,
          make_spec-ok rt at f w (where_match rt at ec w) st a (anchor_spec rt at ec a),
        ))

    anchor_spec-ok :
        (a : MaybeBehavior)
        → is_ok (validate_anchor rt a) ≡ true
        → is_ok (anchor_spec rt at ec a) ≡ true
    anchor_spec-ok no_behavior h = rw (anchor_spec-no_behavior rt at ec)
    anchor_spec-ok (some_behavior b) h =
        rw (anchor_spec-some_behavior rt at ec b)
          (ground (arith, validate_anchor-some_behavior rt b, to_spec-ok b))

  eval_leaf-ok :
      (f : RuleFields) (b : Behavior)
      → is_ok (validate_behavior rt b) ≡ true
      → is_ok (eval_leaf rt at (some s) ec f (some_behavior b)) ≡ true
  eval_leaf-ok f (behavior g w st a) h = rw (eval_leaf-store rt at ec s f g w st a) (
      let (sp, e) =
        is_ok-cases (to_spec rt at ec (behavior g w st a)) (to_spec-ok (behavior g w st a) h) in
      rw e (read_store-ok rt at s answers ec g a sp))

  mutual
    evaluate-ok :
        (r : Rule) → is_ok (validate rt r) ≡ true → is_ok (evaluate rt at (some s) ec r) ≡ true
    evaluate-ok (rule f cs no_behavior) h = rw (evaluate-rule rt at (some s) ec f cs no_behavior) (
        ground (
          arith,
          validate-rule rt f cs,
          eval_leaf-comparison rt at (some s) ec f,
          all_hold-ok cs,
          any_holds-ok cs,
          not_holds-ok cs,
        ))
    evaluate-ok (rule f cs (some_behavior b)) h =
        rw (evaluate-rule rt at (some s) ec f cs (some_behavior b)) (
          ground (
            arith,
            validate-behavior_leaf rt f cs b,
            eq-empty f.operator op_and,
            eq-empty f.operator op_or,
            eq-empty f.operator op_not,
            eval_leaf-ok f b,
          ))

    all_hold-ok :
        (rs : Rules)
        → is_ok (validate_all rt rs) ≡ true
        → is_ok (all_hold rt at (some s) ec rs) ≡ true
    all_hold-ok no_rules h = rw (all_hold-nil rt at (some s) ec)
    all_hold-ok (rule_cons r rs) h =
        rw (all_hold-cons rt at (some s) ec r rs)
          (ground (arith, validate_all-cons rt r rs, evaluate-ok r, all_hold-ok rs))

    any_holds-ok :
        (rs : Rules)
        → is_ok (validate_all rt rs) ≡ true
        → is_ok (any_holds rt at (some s) ec rs) ≡ true
    any_holds-ok no_rules h = rw (any_holds-nil rt at (some s) ec)
    any_holds-ok (rule_cons r rs) h =
        rw (any_holds-cons rt at (some s) ec r rs)
          (ground (arith, validate_all-cons rt r rs, evaluate-ok r, any_holds-ok rs))

    not_holds-ok :
        (rs : Rules)
        → is_ok (validate_all rt rs) ≡ true
        → is_ok (not_holds rt at (some s) ec rs) ≡ true
    not_holds-ok no_rules h = rw (not_holds-nil rt at (some s) ec)
    not_holds-ok (rule_cons r no_rules) h =
        rw (not_holds-single rt at (some s) ec r)
          (ground (arith, validate_all-cons rt r no_rules, evaluate-ok r))
    not_holds-ok (rule_cons r (rule_cons r' rs)) h = rw (not_holds-more rt at (some s) ec r r' rs)

-- If Validate accepts a rule and no read of the store fails, Evaluate returns a value for every
-- profile and event.
pub evaluate-valid_ok :
    (rt : Runtime) (at : ℕ) (s : BehaviorStore) (ec : EvalContext) (r : Rule)
    → Answers s
    → is_ok (validate rt r) ≡ true
    → is_ok (evaluate rt at (some s) ec r) ≡ true
evaluate-valid_ok rt at s ec r answers h = evaluate-ok rt at s answers ec r h
