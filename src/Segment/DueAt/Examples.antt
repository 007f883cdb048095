-- ===== src/Segment/DueAt/Examples.antt =====
-- Deadlines of a concrete rule.
use mathlib.Core.List.{Memᴰ}
use osscdp.Prelude.{refl, some, arith}
use osscdp.Segment.Rule.{Rule}
use osscdp.Segment.Window.{parse_window}
use osscdp.Segment.Evaluate.{spec_window}
use osscdp.Segment.DueAt.{earlier, leaf_due_at, due_walk, next_due_at}
use osscdp.Segment.DueAt.Deadline.{leaves, Covers, next_due_at-least, IsDueOf, next_due_at-attained}
use osscdp.Samples.{sample_runtime, sample_store, sample_context, behavioral, leaf_of, pair_of}

abbrev absent_or_recent : Rule
absent_or_recent =
    pair_of "or" (leaf_of (behavioral "absence" "2d")) (leaf_of (behavioral "recency" "1d"))

next_due_at-least_example : Covers (some 86_400_000_001_000) 172_800_000_001_000
unfolding leaves leaf_due_at due_walk next_due_at earlier spec_window parse_window
next_due_at-least_example =
    next_due_at-least sample_runtime 5000 sample_store sample_context absent_or_recent
      172_800_000_001_000 refl (Memᴰ.head refl) refl (omega arith)

next_due_at-attained_example :
    IsDueOf sample_runtime 5000 sample_store sample_context
      (leaves absent_or_recent)
      86_400_000_001_000
unfolding leaf_due_at due_walk next_due_at earlier spec_window parse_window
next_due_at-attained_example =
    next_due_at-attained sample_runtime 5000 sample_store sample_context absent_or_recent
      86_400_000_001_000 refl
