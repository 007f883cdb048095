-- ===== src/Journey/Enrollment/Examples.antt =====
-- Statements on a concrete table.
use osscdp.Prelude.{◌≤◌, ◌≡◌, refl, false, true, none, some, List, [], ◌∷◌, ◌++◌, arith, pos}
use osscdp.Journey.Enrollment.{
  completed, active, Row, is_of, count_where, new_row, enroll, JourneyHead, exit_active, claim,
  advance, fail, ParkPolicy, exits_on,
}
use osscdp.Journey.Enrollment.Writers.{seed_key, seed_page, reparent_runs}
use osscdp.Journey.Enrollment.Invariant.{Inv}
use osscdp.Journey.Enrollment.Reach.{
  enrolls, claims, start, stated, seeded, reparented, Reachable, empty, next, reachable-Inv,
  reachable_capped,
}
use osscdp.Journey.Enrollment.Fence.{advance_once, exit_active-wins, enroll_again}
use osscdp.Journey.Samples.{sample_key, sample_enrollment}

abbrev enrolled : List Row
enrolled = (enroll sample_key 1 1 100 []).0

abbrev claimed_rows : List Row
claimed_rows = claim 200 60 (λ r. true) enrolled

abbrev claimed_Reachable : Reachable 1 claimed_rows
claimed_Reachable =
    next (next empty (enrolls sample_key 1 1 100 (omega arith))) (claims 200 60 (λ r. true))

abbrev heads : List JourneyHead
heads =
    record {
      id = 2;
      tenant_id = 1;
      is_active_journey = true;
      entry_segment_id = some 5;
      exit_on_segment_leave = true;
    }
    ∷ []

abbrev policy : ParkPolicy
policy = record { base_seconds = 30; cap_seconds = 3600; max_attempts = 10 }

-- A claimed run, a seeded one, and the merge of a third profile into the second.
abbrev seeded_rows : List Row
seeded_rows = claimed_rows ++ new_row (seed_key 1 2 8) 0 1 300 ∷ []

reachable-Inv_example : Inv (reparent_runs 1 9 8 seeded_rows)
unfolding seed_page count_where claim enroll
reachable-Inv_example = reachable-Inv (
    reparented 1 9 8 (
      seeded {rows' = seeded_rows} 1 2 1 300 (7 ∷ 8 ∷ [])
        (stated {limit = 1} (stated {limit = 1} start (enrolls sample_key 1 1 100 (omega arith)))
          (claims 200 60 (λ r. true)))
        refl))

reachable_capped_example : count_where (is_of sample_key) claimed_rows ≤ 1
reachable_capped_example = reachable_capped sample_key claimed_Reachable

advance_once_example :
    advance sample_enrollment 200
      (pos 3)
      300
      completed
      (advance sample_enrollment 200 (pos 2) 250 active claimed_rows).0
    ≡ ((advance sample_enrollment 200 (pos 2) 250 active claimed_rows).0, false)
advance_once_example =
    advance_once sample_enrollment 200 (pos 2) (pos 3) 250 300 active completed claimed_rows

exit_active-wins_example :
    let rows = (exit_active heads 1 5 7 claimed_rows).0 in
    (advance sample_enrollment 200 (pos 2) 250 active rows ≡ (rows, false))
    × (fail policy sample_enrollment 250 "down" rows ≡ (rows, none))
unfolding exits_on
exit_active-wins_example =
    exit_active-wins heads 5 sample_enrollment claimed_rows 200 (pos 2) 250 active policy 250 "down"
      refl

enroll_again_example : enroll sample_key 2 1 300 enrolled ≡ (enrolled, false)
enroll_again_example = enroll_again sample_key 1 2 1 100 300 []
