-- ===== src/Journey/Split.antt =====
-- internal/journey/service.go, `splitTarget`. The first eight bytes of the hash of the key, as a
-- number, are the parameter `hash`.
pub mod Weights
pub mod Members
pub mod Examples
use osscdp.Prelude.{
  ℕ, ◌+◌, ◌%◌, ◌^◌, Bool, Option, none, some, List, [], ◌∷◌, ltb, eqb, if◌then◌else◌, ℤ, to_uint64,
}
use osscdp.Journey.Definition.{Branch}

abbrev pub uint64_mod : ℕ
uint64_mod = 2 ^ 64

-- The first loop: uint64 addition wraps.
pub total_from : ℕ → List Branch → ℕ
total_from total [] = total
total_from total (b ∷ bs) = total_from ((total + to_uint64 b.weight) % uint64_mod) bs

-- `branches[len(branches)-1].Next`; none where Go panics on an empty slice.
last_next : List Branch → Option ℤ
last_next [] = none
last_next (b ∷ []) = some b.next
last_next (b ∷ b' ∷ bs) = last_next (b' ∷ bs)

-- The second loop; none where it ends without a return.
pub pick_from : ℕ → ℕ → List Branch → Option ℤ
pick_from n acc [] = none
pick_from n acc (b ∷ bs) =
    let acc' = (acc + to_uint64 b.weight) % uint64_mod in
    let rest = pick_from n acc' bs in if ltb n acc' then some b.next else rest

first_next : List Branch → Option ℤ
first_next [] = none
first_next (b ∷ bs) = some b.next

or_last : List Branch → Option ℤ → Option ℤ
unfolding last_next
or_last branches none = last_next branches
or_last branches (some target) = some target

unfoldable pub split_target : List Branch → ℕ → Option ℤ
unfolding total_from pick_from first_next or_last
split_target branches hash =
    let total = total_from 0 branches in
    if eqb total 0
    then first_next branches
    else or_last branches (pick_from (hash % total) 0 branches)
