-- ===== src/Journey/Enrollment/Reach.antt =====
-- The enrollment table over every sequence of statements, from the empty one.
use osscdp.Prelude.{
  ℕ, ◌≤◌, ◌<◌, ◌≡◌, refl, some, String, Bool, ◌&&◌, List, [], ◌∷◌, arith, Bool-cases, inl, inr, eqb,
  ltb, ℤ,
}
use osscdp.Journey.Enrollment.{
  Status, Row, Key, is_of, is_active_of, count_where, next_seq, new_row, at_least_one, enroll,
  JourneyHead, exit_active, claim, Enrollment, advance, ParkPolicy, fail, unpark,
}
use osscdp.Journey.Enrollment.Writers.{
  seed_page, delete_where, is_pruned, is_of_profile, reparent_runs,
}
use osscdp.Journey.Enrollment.Writers.Keep.{seed_page-Inv, delete_where-Inv, reparent_runs-Inv}
use osscdp.Journey.Enrollment.Counts.{count_where-append, update_where-capped}
use osscdp.Journey.Enrollment.Invariant.{
  Inv, count_one, key-new_row, enroll-Inv, exit_active-Inv, claim-Inv, advance-Inv, fail-Inv,
  unpark-Inv,
}

-- One statement of the repository, with any arguments; an enrollment's cap is `limit` at most.
pub data Statement (limit : ℕ) (rows : List Row) : List Row → Type 0 where
  enrolls :
      (k : Key) (version max_enrollments due_at : ℕ)
      → at_least_one max_enrollments ≤ limit
      → Statement limit rows (enroll k version max_enrollments due_at rows).0
  exits :
      (journeys : List JourneyHead) (tenant segment profile : ℕ)
      → Statement limit rows (exit_active journeys tenant segment profile rows).0
  claims :
      (now reclaim : ℕ) (chosen : Row → Bool) → Statement limit rows (claim now reclaim chosen rows)
  advances :
      (e : Enrollment) (fence : ℕ) (index : ℤ) (due_at : ℕ) (status : Status)
      → Statement limit rows (advance e fence index due_at status rows).0
  fails :
      (p : ParkPolicy) (e : Enrollment) (now : ℕ) (message : String)
      → Statement limit rows (fail p e now message rows).0
  unparks : (k : Key) (now : ℕ) → Statement limit rows (unpark k now rows).0

pub data Reachable (limit : ℕ) : List Row → Type 0 where
  empty : Reachable limit []
  next :
      {rows rows' : List Row}
      → Reachable limit rows
      → Statement limit rows rows'
      → Reachable limit rows'

Statement-Inv :
    {limit : ℕ} {rows rows' : List Row} → Statement limit rows rows' → Inv rows → Inv rows'
Statement-Inv (enrolls k v m d h) i = enroll-Inv k v m d _ i
Statement-Inv (exits js t s p) i = exit_active-Inv js t s p _ i
Statement-Inv (claims now reclaim chosen) i = claim-Inv now reclaim chosen _ i
Statement-Inv (advances e fence index due status) i = advance-Inv e fence index due status _ i
Statement-Inv (fails p e now message) i = fail-Inv p e now message _ i
Statement-Inv (unparks k now) i = unpark-Inv k now _ i

Inv-empty : Inv []
unfolding count_where
Inv-empty = record {
  one_active = λ k. omega arith;
  distinct_runs = λ k seq. omega arith;
  rows_ok = tt;
}

-- The table through every statement of the program that writes it: those of repo.go, and the pages of
-- the seed jobs, the pruning of retention, the reparenting of a merged profile and its erasure.
pub data Written : List Row → Type 0 where
  start : Written []
  stated :
      {limit : ℕ} {rows rows' : List Row}
      → Written rows
      → Statement limit rows rows'
      → Written rows'
  seeded :
      {rows rows' : List Row} (tenant journey version due_at : ℕ) (page : List ℕ)
      → Written rows
      → seed_page tenant journey version due_at page rows ≡ some rows'
      → Written rows'
  pruned :
      {rows : List Row} (chosen : Row → Bool)
      → Written rows
      → Written (delete_where (is_pruned chosen) rows)
  erased :
      {rows : List Row} (tenant profile : ℕ)
      → Written rows
      → Written (delete_where (is_of_profile tenant profile) rows)
  reparented :
      {rows : List Row} (tenant loser survivor : ℕ)
      → Written rows
      → Written (reparent_runs tenant loser survivor rows)

-- Whatever statements run, in any order and with any arguments, those of seed jobs, of retention, of
-- merges of profiles and of erasures included: a profile has one active run in a journey at most, its
-- runs have distinct numbers, only active runs are claimed or parked, and no run is both.
pub reachable-Inv : {rows : List Row} → Written rows → Inv rows
reachable-Inv start = Inv-empty
reachable-Inv (stated w s) = Statement-Inv s (reachable-Inv w)
reachable-Inv (seeded tenant journey version due_at page w h) =
    seed_page-Inv tenant journey version due_at page _ h (reachable-Inv w)
reachable-Inv (pruned chosen w) = delete_where-Inv (is_pruned chosen) _ (reachable-Inv w)
reachable-Inv (erased tenant profile w) =
    delete_where-Inv (is_of_profile tenant profile) _ (reachable-Inv w)
reachable-Inv (reparented tenant loser survivor w) =
    reparent_runs-Inv tenant loser survivor _ (reachable-Inv w)

enroll-capped :
    (limit : ℕ) (k k' : Key) (v m d : ℕ) (rows : List Row)
    → at_least_one m ≤ limit
    → count_where (is_of k') rows ≤ limit
    → count_where (is_of k') (enroll k v m d rows).0 ≤ limit
unfolding enroll
enroll-capped limit k k' v m d rows h c =
    elim (Bool-cases (
      eqb (count_where (is_active_of k) rows) 0
      && ltb (count_where (is_of k) rows) (at_least_one m))) [
        | inr n ↦ rw n c
        | inl y ↦ rw y (elim (Bool-cases (is_of k' new)) [
          | inl same ↦
              let e : k' ≡ k = key-new_row k k' (next_seq k rows) v d same in
              let room : count_where (is_of k') rows < at_least_one m = rw e (ground arith) in
              ground
                (arith, count_where-append (is_of k') rows (new ∷ []), count_one (is_of k') new)
          | inr other ↦
              ground
                (arith, count_where-append (is_of k') rows (new ∷ []), count_one (is_of k') new)
        ])
      ]
  where
    new : Row
    new = new_row k (next_seq k rows) v d

Statement-capped :
    {limit : ℕ} {rows rows' : List Row} (k : Key)
    → Statement limit rows rows'
    → count_where (is_of k) rows ≤ limit
    → count_where (is_of k) rows' ≤ limit
unfolding exit_active claim advance fail unpark
Statement-capped k (enrolls k' v m d h) c = enroll-capped _ k' k v m d _ h c
Statement-capped k (exits js t s p) c = update_where-capped _ _ (is_of k) (λ r. refl) _ c
Statement-capped k (claims now reclaim chosen) c = update_where-capped _ _ (is_of k) (λ r. refl) _ c
Statement-capped k (advances e fence index due status) c =
    update_where-capped _ _ (is_of k) (λ r. refl) _ c
Statement-capped k (fails p e now message) c = update_where-capped _ _ (is_of k) (λ r. refl) _ c
Statement-capped k (unparks k' now) c = update_where-capped _ _ (is_of k) (λ r. refl) _ c

-- From an empty table, and as long as only Enroll, ExitActiveEnrollmentsForSegment, Advance,
-- ClaimDueEnrollments, FailEnrollment and UnparkEnrollment run, so that no seed job inserts and nothing
-- deletes: a profile never has more runs in a journey than the largest cap that an Enroll was given,
-- one if the cap is 1 or less.
pub reachable_capped :
    {limit : ℕ} {rows : List Row} (k : Key)
    → Reachable limit rows
    → count_where (is_of k) rows ≤ limit
reachable_capped k empty = unfold count_where in omega arith
reachable_capped k (next r s) = Statement-capped k s (reachable_capped k r)
