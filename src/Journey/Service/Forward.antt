-- ===== src/Journey/Service/Forward.antt =====
-- One step of an enrollment of a valid definition moves it forward.
use osscdp.Prelude.{
  ℕ, ◌+◌, ◌<◌, ◌≡◌, refl, sym, ◌∙◌, ap, true, false, inl, inr, subst, Bool-cases, Option-cases,
  Option, none, some, List, [], ◌∷◌, length, get_elem?_of_lt, arith, Result, ok, >>=-eq-ok,
  ok-injective, Result-cases, ℤ, pos, is_zero, at_least, eq-other, All, ◌||◌,
}
use osscdp.Segment.Rule.{Rule}
use osscdp.Segment.Window.{parse_window}
use osscdp.Segment.Leaf.{Profile}
use osscdp.Activation.Service.{enqueue_journey_send}
use osscdp.Journey.Definition.{Branch, Step, step_wait, step_send, step_condition, step_split}
use osscdp.Journey.Validate.{is_forward}
use osscdp.Journey.Validate.Forward.{
  StepOk, wait_ok, send_ok, condition_ok, split_ok, StepsOk, StepsOk-get, BranchOk,
}
use osscdp.Journey.Split.{split_target}
use osscdp.Journey.Split.Members.{split_target-All}
use osscdp.Journey.Enrollment.{Row, Enrollment, advance, exited}
use osscdp.Journey.Service.{
  JourneyError, World, Env, status_for, linear_next, commit, get_step, for_profile, with_profile,
  run_wait, send_of, enqueue_payload, enqueue_step, send_to, branch_on, run_send, evaluate_rule,
  run_rule, run_split, run_step, run_current, advance_enrollment,
}

-- What a step at the index `i` of `n` may do to the enrollments.
pub data Moved (env : Env) (n i : ℕ) (e : Enrollment) (now : ℕ) (before after : List Row)
    : Type 0 where
  -- It advances the run to a later step, or to the end.
  went :
      (target : ℤ) (due_at : ℕ)
      → is_forward i n target ≡ true
      → after ≡ (advance e now target due_at (status_for n target) before).0
      → Moved env n i e now before after
  -- The profile is gone, and the run ends where it stands.
  left :
      env.get_profile e.tenant_id e.customer_profile_id ≡ ok none
      → after ≡ (advance e now e.current_step_index now exited before).0
      → Moved env n i e now before after

linear_next-forward :
    (n i : ℕ) (e : Enrollment) (s : Step)
    → e.current_step_index ≡ pos i
    → i < n
    → (is_zero s.next || is_forward i n s.next) ≡ true
    → is_forward i n (linear_next e s) ≡ true
linear_next-forward n i e s p h k = elim (Bool-cases (is_zero s.next)) [
  | inl z ↦ rw (z, p) (ground arith)
  | inr z ↦ rw z (rw z at k)
]

enqueue_step-rows :
    (env : Env) (n : ℕ) (e : Enrollment) (now sub id : ℕ) (s : Step) (p : Profile) (w : World)
    {v : World}
    → enqueue_step env n e now sub id s p w ≡ ok v
    → v.rows ≡ w.rows
unfolding enqueue_step enqueue_payload
enqueue_step-rows env n e now sub id s p w r =
    let (payload, q, m) = >>=-eq-ok (env.payload e p) _ r in
    elim (Result-cases
      (enqueue_journey_send env.sender (send_of env n e now s payload) sub id w.db)) [
        | inl (out, y) ↦
            sym (ap (λ (x : World). x.rows) (ok-injective (rw (y, enqueue_payload) at m)))
        | inr (x, y) ↦ absurd (ground arith)
      ]

branches-forward :
    (n i : ℕ) (bs : List Branch)
    → All (BranchOk n i) bs
    → All (λ b. is_forward i n b.next ≡ true) bs
branches-forward n i [] a = tt
branches-forward n i (b ∷ bs) a = (a.0.0, branches-forward n i bs a.1)

module _ (env : Env) (n i : ℕ) (e : Enrollment) (now : ℕ) where
  -- A successful step under a profile: it exits, or goes on with the profile.
  with_profile-ok :
      (k : Profile → World → Result JourneyError World) (w : World) {w' : World}
      → ((p : Profile) → k p w ≡ ok w' → Moved env n i e now w.rows w'.rows)
      → with_profile env n e now k w ≡ ok w'
      → Moved env n i e now w.rows w'.rows
  unfolding with_profile for_profile
  with_profile-ok k w h r =
      let (found, v, m) = >>=-eq-ok (env.get_profile e.tenant_id e.customer_profile_id) _ r in
      elim (Option-cases found) [
        | inl y ↦ left (v ∙ ap ok y) (sym (ap (λ (x : World). x.rows) (ok-injective (rw y at m))))
        | inr (p, y) ↦ h p (rw y at m)
      ]

  went_to :
      (target : ℤ) (due_at : ℕ) (w : World) {w' : World}
      → is_forward i n target ≡ true
      → ◌≡◌ {A = Result JourneyError World}
          (ok (commit e now target due_at (status_for n target) w))
          (ok w')
      → Moved env n i e now w.rows w'.rows
  went_to target due_at w f r =
      went target due_at f (sym (ap (λ (x : World). x.rows) (ok-injective r)))

  run_wait-Moved :
      (s : Step) (w : World) {w' : World}
      → is_forward i n (linear_next e s) ≡ true
      → run_wait env n e now s w ≡ ok w'
      → Moved env n i e now w.rows w'.rows
  unfolding run_wait
  run_wait-Moved s w f r = elim (Result-cases (parse_window env.runtime s.duration)) [
    | inl (dur, y) ↦ went_to (linear_next e s) (now + dur) w f (rw (y, run_wait) at r)
    | inr (x, y) ↦ absurd (ground arith)
  ]

  send_to-Moved :
      (sub id : ℕ) (s : Step) (p : Profile) (w : World) {w' : World}
      → is_forward i n (linear_next e s) ≡ true
      → send_to env n e now sub id s p w ≡ ok w'
      → Moved env n i e now w.rows w'.rows
  unfolding send_to
  send_to-Moved sub id s p w {w'} f r =
      let (v, y, m) = >>=-eq-ok (enqueue_step env n e now sub id s p w) _ r in
      subst (λ rs. Moved env n i e now rs w'.rows) (enqueue_step-rows env n e now sub id s p w y)
        (went_to (linear_next e s) now v f m)

  run_send-Moved :
      (sub id : ℕ) (s : Step) (w : World) {w' : World}
      → is_forward i n (linear_next e s) ≡ true
      → run_send env n e now sub id s w ≡ ok w'
      → Moved env n i e now w.rows w'.rows
  unfolding run_send
  run_send-Moved sub id s w f r =
      with_profile-ok (send_to env n e now sub id s) w (λ p. send_to-Moved sub id s p w f) r

  branch_on-Moved :
      (s : Step) (c : Rule) (p : Profile) (w : World) {w' : World}
      → is_forward i n s.if_true ≡ true
      → is_forward i n s.if_false ≡ true
      → branch_on env n e now s c p w ≡ ok w'
      → Moved env n i e now w.rows w'.rows
  unfolding branch_on
  branch_on-Moved s c p w f g r =
      let (b, y, m) = >>=-eq-ok (evaluate_rule env n e now c p) _ r in
      elim (Bool-cases b) [
        | inl t ↦ went_to s.if_true now w f (rw t at m)
        | inr t ↦ went_to s.if_false now w g (rw t at m)
      ]

  run_rule-Moved :
      (s : Step) (c : Option Rule) (w : World) {w' : World}
      → is_forward i n s.if_true ≡ true
      → is_forward i n s.if_false ≡ true
      → run_rule env n e now s c w ≡ ok w'
      → Moved env n i e now w.rows w'.rows
  unfolding run_rule
  run_rule-Moved s none w f g r = absurd (ground arith)
  run_rule-Moved s (some c) w f g r =
      with_profile-ok (branch_on env n e now s c) w (λ p. branch_on-Moved s c p w f g) r

  run_split-Moved :
      (s : Step) (w : World) {w' : World}
      → All (BranchOk n i) s.branches
      → run_split env n e now s w ≡ ok w'
      → Moved env n i e now w.rows w'.rows
  unfolding run_split
  run_split-Moved s w a r = elim (Option-cases (split_target s.branches (env.split_hash e))) [
    | inl y ↦ absurd (ground arith)
    | inr (t, y) ↦
        went_to t now w
          (split_target-All (λ z. is_forward i n z ≡ true) s.branches (env.split_hash e)
            (branches-forward n i s.branches a) y)
          (rw (y, run_split) at r)
  ]

  run_step-Moved :
      (sub id : ℕ) (s : Step) (w : World) {w' : World}
      → StepOk env.runtime n i s
      → e.current_step_index ≡ pos i
      → i < n
      → run_step env n e now sub id s w ≡ ok w'
      → Moved env n i e now w.rows w'.rows
  unfolding run_step
  run_step-Moved sub id s w (wait_ok t d f) p h r =
      run_wait-Moved s w (linear_next-forward n i e s p h f) (rw t at r)
  run_step-Moved sub id s w (send_ok t f) p h r =
      run_send-Moved sub id s w (linear_next-forward n i e s p h f)
        (rw (eq-other s.type_name step_send step_wait t refl, t) at r)
  run_step-Moved sub id s w (condition_ok t c y f g) p h r = run_rule-Moved s s.condition w f g (
      rw
        (
          eq-other s.type_name step_condition step_wait t refl,
          eq-other s.type_name step_condition step_send t refl,
          t,
        )
        at r)
  run_step-Moved sub id s w (split_ok t a q) p h r = run_split-Moved s w a (
      rw
        (
          eq-other s.type_name step_split step_wait t refl,
          eq-other s.type_name step_split step_send t refl,
          eq-other s.type_name step_split step_condition t refl,
          t,
        )
        at r)

run_current-at :
    (env : Env) (n : ℕ) (e : Enrollment) (now sub id : ℕ) (steps : List Step) (s : Step) (w : World)
    → get_step steps e.current_step_index ≡ some s
    → run_current env n e now sub id steps w ≡ run_step env n e now sub id s w
unfolding run_current
run_current-at env n e now sub id steps s w y = rw (y, run_current)

-- One call of Advance without an error, whether or not the table still holds its claim.
pub advance_enrollment-Moved :
    (env : Env) (sub id : ℕ) (e : Enrollment) (now i : ℕ) (steps : List Step) (w : World)
    {w' : World}
    → env.get_version e.tenant_id e.journey_id e.journey_version ≡ ok steps
    → StepsOk env.runtime (length steps) 0 steps
    → e.current_step_index ≡ pos i
    → i < length steps
    → advance_enrollment env sub id e now w ≡ ok w'
    → Moved env (length steps) i e now w.rows w'.rows
unfolding advance_enrollment
advance_enrollment-Moved env sub id e now i steps w v a p h r =
    let (s, y) = get_elem?_of_lt steps i h in
    let inside : at_least e.current_step_index (length steps) ≡ false = rw p (ground arith) in
    let here : get_step steps e.current_step_index ≡ some s = rw p y in
    run_step-Moved env (length steps) i e now sub id s w
      (StepsOk-get env.runtime (length steps) 0 steps i i s (omega arith) a y) p h
      (sym (run_current-at env (length steps) e now sub id steps s w here) ∙ rw (v, inside) at r)
