-- ===== src/Journey/Split/Weights.antt =====
-- A split picks its branch by the intervals that the weights cut out.
use osscdp.Prelude.{
  ℕ, ◌+◌, ◌-◌, ◌%◌, ◌≤◌, ◌<◌, ◌≡◌, refl, ap, some, List, [], ◌∷◌, ◌++◌, arith, ltb, ltb→lt,
  Bool-cases, inl, inr, ℤ, to_uint64,
}
use osscdp.Journey.Definition.{Branch}
use osscdp.Journey.Split.{uint64_mod, total_from, pick_from, split_target}

-- The sum of the weights, with no bound.
abbrev pub sum_weights : List Branch → ℕ
sum_weights [] = 0
sum_weights (b ∷ bs) = to_uint64 b.weight + sum_weights bs

-- The branch at the place `n` of the line on which the weights lie one behind the other.
pub record IsChosen (bs : List Branch) (n : ℕ) (target : ℤ) : Type 0 where
  pub before : List Branch
  pub branch : Branch
  pub after : List Branch
  pub place : bs ≡ before ++ branch ∷ after
  pub low : sum_weights before ≤ n
  pub high : n < sum_weights before + to_uint64 branch.weight
  pub is_target : target ≡ branch.next

total_from-sum :
    (total : ℕ) (bs : List Branch)
    → total + sum_weights bs < uint64_mod
    → total_from total bs ≡ total + sum_weights bs
unfolding total_from
total_from-sum total [] h = omega arith
total_from-sum total (b ∷ bs) h =
    let e : (total + to_uint64 b.weight) % uint64_mod ≡ total + to_uint64 b.weight = omega arith in
    rw e (omega (arith, total_from-sum (total + to_uint64 b.weight) bs))

-- The second loop, from the weight `acc` that it has passed.
pick_from-IsChosen :
    (n acc : ℕ) (bs : List Branch)
    → acc + n < acc + sum_weights bs
    → acc + sum_weights bs < uint64_mod
    → (target : ℤ) × (pick_from (acc + n) acc bs ≡ some target) × IsChosen bs n target
unfolding pick_from
pick_from-IsChosen n acc [] h k = absurd (omega arith)
pick_from-IsChosen n acc (b ∷ bs) h k =
    let w = to_uint64 b.weight in
    let e : (acc + w) % uint64_mod ≡ acc + w = omega arith in
    rw e (elim (Bool-cases (ltb (acc + n) (acc + w))) [
      | inl here ↦ (
        b.next,
        rw here,
        record {
          before = [];
          branch = b;
          after = bs;
          place = refl;
          low = omega arith;
          high = omega (arith, ltb→lt (acc + n) (acc + w) here);
          is_target = refl;
        },
      )
      | inr later ↦
          let past : w ≤ n = ground arith in
          let (t, picked, c) =
            pick_from-IsChosen (n - w) (acc + w) bs (omega arith) (omega arith) in
          let shift : acc + w + (n - w) ≡ acc + n = omega arith in
          (
            t,
            rw later (rw shift at picked),
            record {
              before = b ∷ c.before;
              branch = c.branch;
              after = c.after;
              place = ap (◌∷◌ b) c.place;
              low = omega (arith, c.low);
              high = omega (arith, c.high);
              is_target = c.is_target;
            },
          )
    ])

-- If the weights are not all zero and their sum fits a uint64, the split picks the branch in whose
-- interval, of the length of its weight, the hash lies modulo the sum: no addition wraps, and the
-- returns behind the loop are not reached.
pub split_target-IsChosen :
    (bs : List Branch) (hash : ℕ)
    → 0 < sum_weights bs
    → sum_weights bs < uint64_mod
    → (target : ℤ) × (split_target bs hash ≡ some target)
      × IsChosen bs (hash % sum_weights bs) target
unfolding split_target
split_target-IsChosen bs hash h k =
    let e : total_from 0 bs ≡ sum_weights bs = omega (arith, total_from-sum 0 bs) in
    let n = hash % sum_weights bs in
    let z : 0 + n ≡ n = omega arith in
    let (t, picked, c) = pick_from-IsChosen n 0 bs (grind arith) (omega arith) in
    let e' : pick_from n 0 bs ≡ some t = rw z at picked in (t, ground arith, c)
