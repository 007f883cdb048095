-- ===== src/Journey/Validate/Forward.antt =====
-- What a definition that passes validation guarantees of its steps.
use mathlib.Core.Path.{subst₂}
use osscdp.Prelude.{
  ℕ, suc, ◌+◌, ◌<◌, ◌≡◌, refl, ◌==◌, Bool, true, false, not, ◌||◌, inl, inr, subst, Bool-cases,
  Option, none, some, List, [], ◌∷◌, arith, length, All, get_elem?, is_ok, ok, >>=-eq-ok,
  refuse_if-eq-ok, sym, eqb, is_zero, is_pos, at_most, ok-injective, ap, zero,
}
use osscdp.Runtime.{Runtime}
use osscdp.Segment.Rule.{Rule}
use osscdp.Segment.Window.{parse_window}
use osscdp.Journey.Definition.{Branch, Step, step_wait, step_send, step_condition, step_split}
use osscdp.Journey.Validate.{
  max_split_weight, is_forward, validate_branches, validate_wait, validate_send, no_steps, no_send,
  validate_condition_rule, validate_rule, validate_condition, validate_split, validate_step,
  validate_steps, validate_definition,
}

abbrev pub BranchOk : ℕ → ℕ → Branch → Type 0
BranchOk n i b =
    (is_forward i n b.next ≡ true)
    × (is_pos b.weight ≡ true)
    × (at_most b.weight max_split_weight ≡ true)

abbrev pub is_linear : Step → Bool
is_linear s = s.type_name == step_wait || s.type_name == step_send

-- A step at the index `i` of `n`, whose every target is forward.
pub data StepOk (rt : Runtime) (n i : ℕ) (s : Step) : Type 0 where
  wait_ok :
      (s.type_name == step_wait) ≡ true
      → is_ok (parse_window rt s.duration) ≡ true
      → (is_zero s.next || is_forward i n s.next) ≡ true
      → StepOk rt n i s
  send_ok :
      (s.type_name == step_send) ≡ true
      → (is_zero s.next || is_forward i n s.next) ≡ true
      → StepOk rt n i s
  condition_ok :
      (s.type_name == step_condition) ≡ true
      → (r : Rule) → s.condition ≡ some r
      → is_forward i n s.if_true ≡ true
      → is_forward i n s.if_false ≡ true
      → StepOk rt n i s
  split_ok :
      (s.type_name == step_split) ≡ true
      → All (BranchOk n i) s.branches
      → 0 < length s.branches
      → StepOk rt n i s

validate_branches-ok :
    (n i bi : ℕ) (bs : List Branch)
    → is_ok (validate_branches n i bi bs) ≡ true
    → All (BranchOk n i) bs
unfolding validate_branches
validate_branches-ok n i bi [] h = tt
validate_branches-ok n i bi (b ∷ bs) h =
    (ground arith, validate_branches-ok n i (bi + 1) bs (ground arith))

module _ (rt : Runtime) (n i : ℕ) (s : Step) {s' : Step} where
  validate_wait-ok :
      (s.type_name == step_wait) ≡ true → validate_wait rt n i s ≡ ok s' → StepOk rt n i s'
  unfolding validate_wait
  validate_wait-ok t h =
      let e : s ≡ s' = ground arith in
      subst (StepOk rt n i) e (wait_ok t (ground arith) (ground arith))

  validate_send-ok :
      (s.type_name == step_send) ≡ true → validate_send rt n i s ≡ ok s' → StepOk rt n i s'
  unfolding validate_send
  validate_send-ok t h =
      let e : s ≡ s' = ground arith in subst (StepOk rt n i) e (send_ok t (ground arith))

  validate_rule-ok :
      (s.type_name == step_condition) ≡ true
      → (c : Option Rule) → validate_rule rt n i s c ≡ ok s'
      → StepOk rt n i s'
  unfolding validate_rule
  validate_rule-ok t none h = absurd (ground arith)
  validate_rule-ok t (some r) h =
      let (r', v, k) = >>=-eq-ok (validate_condition_rule rt n i r) _ h in
      let e : record s { condition = some r' } ≡ s' = ground arith in
      subst (StepOk rt n i) e (condition_ok t r' refl (ground arith) (ground arith))

  validate_condition-ok :
      (s.type_name == step_condition) ≡ true
      → validate_condition rt n i s ≡ ok s'
      → StepOk rt n i s'
  unfolding validate_condition
  validate_condition-ok t h = validate_rule-ok t s.condition (ground arith)

  validate_split-ok :
      (s.type_name == step_split) ≡ true → validate_split rt n i s ≡ ok s' → StepOk rt n i s'
  unfolding validate_split
  validate_split-ok t h =
      let e : s ≡ s' = ground arith in
      subst (StepOk rt n i) e
        (split_ok t (validate_branches-ok n i 0 s.branches (ground arith)) (ground arith))

  validate_step-ok : validate_step rt n i s ≡ ok s' → StepOk rt n i s'
  unfolding validate_step
  validate_step-ok h = elim (Bool-cases (s.type_name == step_wait)) [
    | inl w ↦ validate_wait-ok w (rw w at h)
    | inr nw ↦ elim (Bool-cases (s.type_name == step_send)) [
      | inl w ↦ validate_send-ok w (rw (nw, w) at h)
      | inr ns ↦ elim (Bool-cases (s.type_name == step_condition)) [
        | inl w ↦ validate_condition-ok w (rw (nw, ns, w) at h)
        | inr nc ↦ elim (Bool-cases (s.type_name == step_split)) [
          | inl w ↦ validate_split-ok w (rw (nw, ns, nc, w) at h)
          | inr np ↦ absurd (ground arith)
        ]
      ]
    ]
  ]

-- Every step is in order, from the index `i` on.
abbrev pub StepsOk : Runtime → ℕ → ℕ → List Step → Type 0
StepsOk rt n i [] = Unit
StepsOk rt n i (s ∷ ss) = StepOk rt n i s × StepsOk rt n (suc i) ss

validate_steps-ok :
    (rt : Runtime) (n i : ℕ) (sends : Bool) (ss : List Step) {out : List Step × Bool}
    → validate_steps rt n i sends ss ≡ ok out
    → StepsOk rt n i out.0 × (length out.0 ≡ length ss)
unfolding validate_steps
validate_steps-ok rt n i sends [] h =
    subst (λ (o : List Step × Bool). StepsOk rt n i o.0 × (length o.0 ≡ 0)) (ok-injective h)
      (tt, refl)
validate_steps-ok rt n i sends (s ∷ ss) h =
    let (s', v, k) = >>=-eq-ok (validate_step rt n i s) _ h in
    let (out', v', k') =
      >>=-eq-ok (validate_steps rt n (suc i) (sends || s.type_name == step_send) ss) _ k in
    let (all, len) = validate_steps-ok rt n (suc i) (sends || s.type_name == step_send) ss v' in
    let all' : StepsOk rt n i (s' ∷ out'.0) = (validate_step-ok rt n i s v, all) in
    subst (λ (o : List Step × Bool). StepsOk rt n i o.0 × (length o.0 ≡ suc (length ss)))
      (ok-injective k') (all', ap suc len)

pub StepsOk-get :
    (rt : Runtime) (n i : ℕ) (ss : List Step) (j k : ℕ) (s : Step)
    → i + j ≡ k
    → StepsOk rt n i ss
    → get_elem? ss j ≡ some s
    → StepOk rt n k s
StepsOk-get rt n i [] j k s q h e = absurd (ground arith)
StepsOk-get rt n i (x ∷ ss) zero k s q h e =
    let p : i ≡ k = omega arith in let p' : x ≡ s = ground arith in subst₂ (StepOk rt n) p p' h.0
StepsOk-get rt n i (x ∷ ss) (suc j) k s q h e =
    StepsOk-get rt n (suc i) ss j k s (omega arith) h.1 e

-- In a definition that passes validation every step has one of the four types, its wait parses,
-- its rule is there, and all its targets lie behind it and within the steps, or just behind the
-- last one.
pub validate_definition-forward :
    (rt : Runtime) (steps : List Step) {steps' : List Step}
    → validate_definition rt steps ≡ ok steps'
    → StepsOk rt (length steps') 0 steps'
unfolding validate_definition
validate_definition-forward rt steps h =
    let (_, k) = refuse_if-eq-ok (eqb (length steps) 0) no_steps _ h in
    let (out, v, k') = >>=-eq-ok (validate_steps rt (length steps) 0 false steps) _ k in
    let (_, e) = refuse_if-eq-ok (not out.1) no_send _ k' in
    let (all, len) = validate_steps-ok rt (length steps) 0 false steps v in
    subst (λ ss. StepsOk rt (length ss) 0 ss) (ok-injective e)
      (subst (λ n. StepsOk rt n 0 out.0) (sym len) all)
