-- ===== src/Segment/DueAt/Deadline.antt =====
-- The deadline of a rule is the least of the deadlines of its behavioral leaves.
use mathlib.Core.List.{Memᴰ}
use osscdp.Prelude.{
  ℕ, ◌≤◌, ◌<◌, ◌≡◌, refl, sym, ◌∙◌, ap, subst, ◌⊎◌, inl, inr, fun_ext, Option, none, some, List, [],
  ◌∷◌, ◌++◌, arith, Result, ok, err, ◌>>=◌, Bool-cases, ok-injective, ltb, ltb→lt, ◌&&◌, >>=-eq-ok,
}
use osscdp.Runtime.{Runtime}
use osscdp.Segment.Rule.{
  Rule, rule, Rules, no_rules, rule_cons, Behavior, no_behavior, some_behavior,
}
use osscdp.Segment.Store.{EvalError, BehaviorStore}
use osscdp.Segment.Leaf.{EvalContext}
use osscdp.Segment.DueAt.{earlier, leaf_due_at, due_walk, due_walk_all, next_due_at}

-- The behavioral leaves, from left to right.
unfoldable mutual
  pub leaves : Rule → List Behavior
  leaves (rule f conditions (some_behavior b)) = b ∷ []
  leaves (rule f conditions no_behavior) = all_leaves conditions

  pub all_leaves : Rules → List Behavior
  all_leaves no_rules = []
  all_leaves (rule_cons r rs) = leaves r ++ all_leaves rs

-- The deadline `best` comes no later than `d`.
abbrev pub Covers : Option ℕ → ℕ → Type 0
Covers none d = ⊥
Covers (some e) d = e ≤ d

Covers-earlier_due :
    (at : ℕ) (best : Option ℕ) (d : ℕ) → at < d → Covers (earlier at best (some d)) d
unfolding earlier
Covers-earlier_due at none d h = ground arith
Covers-earlier_due at (some e) d h = ground arith

Covers-earlier :
    (at : ℕ) (best due : Option ℕ) (d : ℕ) → Covers best d → Covers (earlier at best due) d
unfolding earlier
Covers-earlier at none due d h = absurd h
Covers-earlier at (some e) none d h = h
Covers-earlier at (some e) (some f) d h = ground arith

earlier-cases :
    (at : ℕ) (best due : Option ℕ)
    → (earlier at best due ≡ best)
      ⊎ ((d : ℕ) × (due ≡ some d) × (earlier at best due ≡ some d) × (at < d))
unfolding earlier
earlier-cases at best none = inl refl
earlier-cases at none (some d) = elim (Bool-cases (ltb at d)) [
  | inl y ↦ inr (d, refl, ground arith, ltb→lt at d y)
  | inr n ↦ inl (ground arith)
]
earlier-cases at (some e) (some d) = elim (Bool-cases (ltb at d && ltb d e)) [
  | inl y ↦ inr (d, refl, ground arith, ltb→lt at d (ground arith))
  | inr n ↦ inl (ground arith)
]

module _ (rt : Runtime) (at : ℕ) (store : BehaviorStore) (ec : EvalContext) where
  fold_dues : Option ℕ → List Behavior → Result EvalError (Option ℕ)
  fold_dues best [] = ok best
  fold_dues best (b ∷ bs) = do
    due ← leaf_due_at rt at store ec b
    fold_dues (earlier at best due) bs

  fold_dues-append :
      (best : Option ℕ) (bs cs : List Behavior)
      → fold_dues best (bs ++ cs) ≡ (fold_dues best bs >>= λ best'. fold_dues best' cs)
  unfolding fold_dues
  fold_dues-append best [] cs = refl
  fold_dues-append best (b ∷ bs) cs =
      elim (leaf_due_at rt at store ec b)
        as (λ m.
          (m >>= λ due. fold_dues (earlier at best due) (bs ++ cs))
          ≡ ((m >>= λ due. fold_dues (earlier at best due) bs) >>= λ best'. fold_dues best' cs)) [
            | ok due ↦ fold_dues-append (earlier at best due) bs cs
            | err e ↦ refl
          ]

  mutual
    unfolding due_walk leaves fold_dues

    due_walk-fold :
        (best : Option ℕ) (r : Rule) → due_walk rt at store ec best r ≡ fold_dues best (leaves r)
    due_walk-fold best (rule f cs (some_behavior b)) = refl
    due_walk-fold best (rule f cs no_behavior) = due_walk_all-fold best cs

    due_walk_all-fold :
        (best : Option ℕ) (rs : Rules)
        → due_walk_all rt at store ec best rs ≡ fold_dues best (all_leaves rs)
    due_walk_all-fold best no_rules = refl
    due_walk_all-fold best (rule_cons r rs) =
        rw (due_walk-fold best r, fold_dues-append best (leaves r) (all_leaves rs))
          (ap (λ k. fold_dues best (leaves r) >>= k)
            (fun_ext (λ best'. due_walk_all-fold best' rs)))

  fold-keeps :
      (best : Option ℕ) (bs : List Behavior) {out : Option ℕ} (d : ℕ)
      → fold_dues best bs ≡ ok out
      → Covers best d
      → Covers out d
  unfolding fold_dues
  fold-keeps best [] d h c = subst (λ o. Covers o d) (ground arith) c
  fold-keeps best (b ∷ bs) d h c =
      let (due, e, k) = >>=-eq-ok (leaf_due_at rt at store ec b) _ h in
      fold-keeps (earlier at best due) bs d k (Covers-earlier at best due d c)

  fold-Covers :
      (best : Option ℕ) (bs : List Behavior) {out : Option ℕ} {b : Behavior} (d : ℕ)
      → fold_dues best bs ≡ ok out
      → Memᴰ b bs
      → leaf_due_at rt at store ec b ≡ ok (some d)
      → at < d
      → Covers out d
  unfolding fold_dues
  fold-Covers best [] d h m l t = elim m [ ]
  fold-Covers best (b' ∷ bs) d h (Memᴰ.head p) l t =
      let (due, e, k) = >>=-eq-ok (leaf_due_at rt at store ec b') _ h in
      let e' : due ≡ some d = ok-injective (sym e ∙ ap (leaf_due_at rt at store ec) (sym p) ∙ l) in
      fold-keeps (earlier at best due) bs d k (rw e' (Covers-earlier_due at best d t))
  fold-Covers best (b' ∷ bs) d h (Memᴰ.tail m) l t =
      let (due, e, k) = >>=-eq-ok (leaf_due_at rt at store ec b') _ h in
      fold-Covers (earlier at best due) bs d k m l t

  -- A leaf of the list whose deadline is `d`, after the instant of the evaluation.
  pub record IsDueOf (bs : List Behavior) (d : ℕ) : Type 0 where
    pub leaf : Behavior
    pub among : Memᴰ leaf bs
    pub due : leaf_due_at rt at store ec leaf ≡ ok (some d)
    pub later : at < d

  fold-attained :
      (best : Option ℕ) (bs : List Behavior) {out : Option ℕ}
      → fold_dues best bs ≡ ok out
      → (best ≡ out) ⊎ ((d : ℕ) × IsDueOf bs d × (out ≡ some d))
  unfolding fold_dues
  fold-attained best [] h = inl (ok-injective h)
  fold-attained best (b ∷ bs) h =
      let (due, e, k) = >>=-eq-ok (leaf_due_at rt at store ec b) _ h in
      elim (fold-attained (earlier at best due) bs k) [
        | inr (d, x, o) ↦ inr (
          d,
          record { leaf = x.leaf; among = Memᴰ.tail x.among; due = x.due; later = x.later },
          o,
        )
        | inl same ↦ elim (earlier-cases at best due) [
          | inl keep ↦ inl (sym keep ∙ same)
          | inr (d, p, q, t) ↦ inr (
            d,
            record { leaf = b; among = Memᴰ.head refl; due = e ∙ ap ok p; later = t },
            sym same ∙ q,
          )
        ]
      ]

  -- If nextDueAt returns without an error, then every behavioral leaf of the rule whose deadline
  -- lies after `at` has it no earlier than the one returned, which there is then.
  pub next_due_at-least :
      (r : Rule) {out : Option ℕ} {b : Behavior} (d : ℕ)
      → next_due_at rt at store ec r ≡ ok out
      → Memᴰ b (leaves r)
      → leaf_due_at rt at store ec b ≡ ok (some d)
      → at < d
      → Covers out d
  unfolding next_due_at
  next_due_at-least r d h m l t =
      fold-Covers none (leaves r) d (sym (due_walk-fold none r) ∙ h) m l t

  -- A deadline that nextDueAt returns lies after `at`, and is the deadline of one of the rule's
  -- behavioral leaves.
  pub next_due_at-attained :
      (r : Rule) (d : ℕ) → next_due_at rt at store ec r ≡ ok (some d) → IsDueOf (leaves r) d
  unfolding next_due_at
  next_due_at-attained r d h =
      elim (fold-attained none (leaves r) (sym (due_walk-fold none r) ∙ h)) [
        | inl e ↦ absurd (ground arith)
        | inr (d', x, o) ↦ let e : d' ≡ d = cc in subst (IsDueOf (leaves r)) e x
      ]
