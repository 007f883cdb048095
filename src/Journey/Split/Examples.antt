-- ===== src/Journey/Split/Examples.antt =====
-- A split by concrete weights.
use osscdp.Prelude.{ℤ, ◌≡◌, some, arith}
use osscdp.Journey.Split.{split_target}
use osscdp.Journey.Split.Weights.{IsChosen, split_target-IsChosen}
use osscdp.Journey.Samples.{sample_branches}

split_target-IsChosen_example :
    (target : ℤ) × (split_target sample_branches 1275 ≡ some target)
    × IsChosen sample_branches 75 target
split_target-IsChosen_example =
    split_target-IsChosen sample_branches 1275 (omega arith) (omega arith)
