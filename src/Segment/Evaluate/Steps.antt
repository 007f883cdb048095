-- ===== src/Segment/Evaluate/Steps.antt =====
-- The clauses of `evaluate` as equations, for proofs that keep it shut.
use osscdp.Prelude.{
  ℕ, ◌≡◌, refl, ◌==◌, true, false, not, ◌&&◌, ◌||◌, Option, none, some, is_some, if◌then◌else◌, ok,
  ◌>>=◌,
}
use osscdp.Runtime.{Runtime}
use osscdp.Segment.Rule.{
  op_and, op_or, op_not, RuleFields, BehaviorFields, Rule, rule, Rules, no_rules, rule_cons,
  MaybeRule, Behavior, behavior, Behaviors, MaybeBehavior, no_behavior, some_behavior,
}
use osscdp.Segment.Store.{BehaviorStore, no_spec, some_spec}
use osscdp.Segment.Leaf.{EvalContext, leaf_holds}
use osscdp.Segment.Evaluate.{
  has_behavior, any_behavior, make_spec, read_store, evaluate, all_hold, any_holds, not_holds,
  eval_leaf, where_match, anchor_spec, to_spec,
}

pub has_behavior-inner :
    (f : RuleFields) (cs : Rules) → has_behavior (rule f cs no_behavior) ≡ any_behavior cs
unfolding has_behavior
has_behavior-inner f cs = refl

pub has_behavior-behavior :
    (f : RuleFields) (cs : Rules) (b : Behavior) → has_behavior (rule f cs (some_behavior b)) ≡ true
unfolding has_behavior
has_behavior-behavior f cs b = refl

pub any_behavior-cons :
    (r : Rule) (rs : Rules) → any_behavior (rule_cons r rs) ≡ (has_behavior r || any_behavior rs)
unfolding has_behavior
any_behavior-cons r rs = refl

module _ (rt : Runtime) (at : ℕ) (store : Option BehaviorStore) (ec : EvalContext) where
  pub evaluate-rule :
      (f : RuleFields) (cs : Rules) (b : MaybeBehavior)
      → evaluate rt at store ec (rule f cs b) ≡ (
          if f.operator == op_and
          then all_hold rt at store ec cs
          else if f.operator == op_or
          then any_holds rt at store ec cs
          else if f.operator == op_not
          then not_holds rt at store ec cs
          else eval_leaf rt at store ec f b)
  unfolding evaluate
  evaluate-rule f cs b = refl

  pub all_hold-nil : all_hold rt at store ec no_rules ≡ ok true
  unfolding evaluate
  all_hold-nil = refl

  pub all_hold-cons :
      (r : Rule) (rs : Rules)
      → all_hold rt at store ec (rule_cons r rs)
        ≡ (evaluate rt at store ec r >>= λ m. if m then all_hold rt at store ec rs else ok false)
  unfolding evaluate
  all_hold-cons r rs = refl

  pub any_holds-nil : any_holds rt at store ec no_rules ≡ ok false
  unfolding evaluate
  any_holds-nil = refl

  pub any_holds-cons :
      (r : Rule) (rs : Rules)
      → any_holds rt at store ec (rule_cons r rs)
        ≡ (evaluate rt at store ec r >>= λ m. if m then ok true else any_holds rt at store ec rs)
  unfolding evaluate
  any_holds-cons r rs = refl

  pub not_holds-nil : not_holds rt at store ec no_rules ≡ ok false
  unfolding evaluate
  not_holds-nil = refl

  pub not_holds-single :
      (r : Rule)
      → not_holds rt at store ec (rule_cons r no_rules) ≡ (
          if not (is_some store) && has_behavior r
          then ok false
          else (evaluate rt at store ec r >>= λ m. ok (not m)))
  unfolding evaluate
  not_holds-single r = refl

  pub not_holds-more :
      (r r' : Rule) (rs : Rules)
      → not_holds rt at store ec (rule_cons r (rule_cons r' rs)) ≡ ok false
  unfolding evaluate
  not_holds-more r r' rs = refl

  pub eval_leaf-comparison :
      (f : RuleFields) → eval_leaf rt at store ec f no_behavior ≡ ok (leaf_holds rt f ec)
  unfolding evaluate
  eval_leaf-comparison f = refl

module _ (rt : Runtime) (at : ℕ) (ec : EvalContext) where
  pub eval_leaf-nil :
      (f : RuleFields) (b : Behavior) → eval_leaf rt at none ec f (some_behavior b) ≡ ok false
  unfolding evaluate
  eval_leaf-nil f (behavior g w st a) = refl

  pub eval_leaf-store :
      (s : BehaviorStore) (f : RuleFields) (g : BehaviorFields) (w : MaybeRule) (st : Behaviors)
      (a : MaybeBehavior)
      → eval_leaf rt at (some s) ec f (some_behavior (behavior g w st a))
        ≡ (to_spec rt at ec (behavior g w st a) >>= λ sp. read_store rt at s ec g a sp)
  unfolding evaluate
  eval_leaf-store s f g w st a = refl

  pub to_spec-behavior :
      (f : BehaviorFields) (w : MaybeRule) (st : Behaviors) (a : MaybeBehavior)
      → to_spec rt at ec (behavior f w st a)
        ≡ make_spec rt at f w (where_match rt at ec w) st a (anchor_spec rt at ec a)
  unfolding evaluate
  to_spec-behavior f w st a = refl

  pub anchor_spec-no_behavior : anchor_spec rt at ec no_behavior ≡ ok no_spec
  unfolding evaluate
  anchor_spec-no_behavior = refl

  pub anchor_spec-some_behavior :
      (b : Behavior)
      → anchor_spec rt at ec (some_behavior b) ≡ (do sp ← to_spec rt at ec b; ok (some_spec sp))
  unfolding evaluate
  anchor_spec-some_behavior b = refl
