-- ===== src/Journey/Enrollment/Writers.antt =====
-- The other writers of journey_enrollment: `SeedJobPage` of internal/journey/seedjob.go,
-- `PruneTerminalEnrollments` of retention.go, the reparenting of internal/profile/repo.go, and the
-- erasure of internal/governance/governance.go.
pub mod Keep
use osscdp.Prelude.{ℕ, Bool, not, ◌&&◌, Option, none, some, List, [], ◌∷◌, ◌++◌, eqb, if◌then◌else◌}
use osscdp.Journey.Enrollment.{
  Row, Key, is_active, is_of, is_active_of, is_run, count_where, update_where, new_row,
}

abbrev pub seed_key : ℕ → ℕ → ℕ → Key
seed_key tenant journey profile = record {
  tenant_id = tenant;
  journey_id = journey;
  customer_profile_id = profile;
}

-- The insert of SeedJobPage for the profiles of its page, in an active journey. A run with the number 0
-- is left as it is; another active run breaks the unique index, and the statement fails.
unfoldable pub seed_page : ℕ → ℕ → ℕ → ℕ → List ℕ → List Row → Option (List Row)
seed_page tenant journey version due_at [] rows = some rows
seed_page tenant journey version due_at (p ∷ ps) rows =
    let k = seed_key tenant journey p in
    let later = seed_page tenant journey version due_at ps in
    if not (eqb (count_where (is_run k 0) rows) 0)
    then later rows
    else if eqb (count_where (is_active_of k) rows) 0
    then later (rows ++ new_row k 0 version due_at ∷ [])
    else none

-- DELETE ... WHERE p
unfoldable pub delete_where : (Row → Bool) → List Row → List Row
delete_where p [] = []
delete_where p (r ∷ rs) = let rest = delete_where p rs in if p r then rest else r ∷ rest

-- PruneTerminalEnrollments: `chosen` is what the age and the limit leave.
abbrev pub is_pruned : (Row → Bool) → Row → Bool
is_pruned chosen r = not (is_active r.status) && chosen r

-- The rows of one profile, as the erasure and the end of the reparenting delete them.
abbrev pub is_of_profile : ℕ → ℕ → Row → Bool
is_of_profile tenant profile r = eqb r.tenant_id tenant && eqb r.customer_profile_id profile

abbrev pub moves_run : ℕ → ℕ → ℕ → List Row → Row → Bool
moves_run tenant loser survivor rows r =
    is_of_profile tenant loser r
    && eqb (count_where (is_of (seed_key tenant r.journey_id survivor)) rows) 0

abbrev pub moved_run : ℕ → Row → Row
moved_run survivor r = record r { customer_profile_id = survivor }

-- The reparenting: the loser's runs in the journeys that the survivor has none in, and then the
-- deletion of those that are left.
unfoldable pub reparent_runs : ℕ → ℕ → ℕ → List Row → List Row
unfolding update_where delete_where
reparent_runs tenant loser survivor rows =
    delete_where (λ r. is_of_profile tenant loser r)
      (update_where (moves_run tenant loser survivor rows) (moved_run survivor) rows)
