-- ===== src/Journey/Split/Members.antt =====
-- Whatever the weights are, a split goes to the target of one of its branches.
use osscdp.Prelude.{
  ℕ, ◌+◌, ◌%◌, ◌≡◌, Option, none, some, List, [], ◌∷◌, arith, All, subst, ltb, eqb, Bool-cases, inl,
  inr, ℤ, to_uint64,
}
use osscdp.Journey.Definition.{Branch}
use osscdp.Journey.Split.{
  uint64_mod, total_from, pick_from, first_next, last_next, or_last, split_target,
}

module _ (P : ℤ → Type 0) where
  abbrev HoldsNext : Branch → Type 0
  HoldsNext b = P b.next

  last_next-All : (bs : List Branch) {t : ℤ} → All HoldsNext bs → last_next bs ≡ some t → P t
  unfolding last_next
  last_next-All [] a e = absurd (ground arith)
  last_next-All (b ∷ []) {t} a e = let p : b.next ≡ t = cc in subst P p a.0
  last_next-All (b ∷ b' ∷ bs) a e = last_next-All (b' ∷ bs) a.1 e

  first_next-All : (bs : List Branch) {t : ℤ} → All HoldsNext bs → first_next bs ≡ some t → P t
  unfolding first_next
  first_next-All [] a e = absurd (ground arith)
  first_next-All (b ∷ bs) {t} a e = let p : b.next ≡ t = cc in subst P p a.0

  pick_from-All :
      (n acc : ℕ) (bs : List Branch) {t : ℤ} → All HoldsNext bs → pick_from n acc bs ≡ some t → P t
  unfolding pick_from
  pick_from-All n acc [] a e = absurd (ground arith)
  pick_from-All n acc (b ∷ bs) {t} a e =
      elim (Bool-cases (ltb n ((acc + to_uint64 b.weight) % uint64_mod))) [
        | inl y ↦ let p : b.next ≡ t = ground arith in subst P p a.0
        | inr m ↦ pick_from-All n ((acc + to_uint64 b.weight) % uint64_mod) bs a.1 (rw m at e)
      ]

  or_last-All :
      (bs : List Branch) (o : Option ℤ) {t : ℤ}
      → All HoldsNext bs
      → ((u : ℤ) → o ≡ some u → P u)
      → or_last bs o ≡ some t
      → P t
  unfolding or_last
  or_last-All bs none a h e = last_next-All bs a e
  or_last-All bs (some u) a h e = h _ e

  -- What holds of the targets of all branches holds of the target that the split goes to.
  pub split_target-All :
      (bs : List Branch) (hash : ℕ) {t : ℤ} → All HoldsNext bs → split_target bs hash ≡ some t → P t
  unfolding split_target
  split_target-All bs hash a e = elim (Bool-cases (eqb (total_from 0 bs) 0)) [
    | inl y ↦ first_next-All bs a (rw y at e)
    | inr m ↦
        or_last-All bs (pick_from (hash % total_from 0 bs) 0 bs) a
          (λ u k. pick_from-All (hash % total_from 0 bs) 0 bs a k) (rw m at e)
  ]
