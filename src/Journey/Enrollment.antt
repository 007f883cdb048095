-- ===== src/Journey/Enrollment.antt =====
-- internal/journey/repo.go: the table journey_enrollment, and the statements on it. The table is a
-- list of rows; a statement returns the table after it, beside what the method returns.
pub mod Counts
pub mod Invariant
pub mod Reach
pub mod Fence
pub mod Find
pub mod Writers
pub mod Examples
use osscdp.Prelude.{
  ℕ, zero, suc, ◌+◌, ◌-◌, ◌*◌, ◌^◌, String, Bool, true, false, not, ◌&&◌, ◌||◌, Option, none, some,
  is_some, List, [], ◌∷◌, ◌++◌, map, ltb, leb, eqb, if◌then◌else◌, ℤ, pos,
}

-- EnrollmentActive, EnrollmentCompleted, EnrollmentExited
pub data Status : Type 0 where
  active completed exited : Status

abbrev pub is_active : Status → Bool
is_active active = true
is_active _ = false

-- The columns of a row but its two times of bookkeeping.
pub record Row : Type 0 where
  pub tenant_id : ℕ
  pub journey_id : ℕ
  pub customer_profile_id : ℕ
  pub enrollment_seq : ℕ
  pub journey_version : ℕ
  pub status : Status
  pub current_step_index : ℤ
  pub step_seq : ℕ
  pub due_at : ℕ
  pub claimed_at : Option ℕ
  pub attempts : ℕ
  pub parked_at : Option ℕ
  pub last_error : Option String

-- The columns that all runs of one profile in one journey share.
pub record Key : Type 0 where
  pub tenant_id : ℕ
  pub journey_id : ℕ
  pub customer_profile_id : ℕ

abbrev pub is_of : Key → Row → Bool
is_of k r =
    eqb r.tenant_id k.tenant_id
    && eqb r.journey_id k.journey_id
    && eqb r.customer_profile_id k.customer_profile_id

abbrev pub is_active_of : Key → Row → Bool
is_active_of k r = is_of k r && is_active r.status

-- The primary key.
abbrev pub is_run : Key → ℕ → Row → Bool
is_run k seq r = is_of k r && eqb r.enrollment_seq seq

-- SELECT count(*) ... WHERE p
pub count_where : (Row → Bool) → List Row → ℕ
count_where p [] = 0
count_where p (r ∷ rs) = let n = count_where p rs in if p r then suc n else n

-- UPDATE ... SET f WHERE p
pub update_where : (Row → Bool) → (Row → Row) → List Row → List Row
update_where p f [] = []
update_where p f (r ∷ rs) = let rest = update_where p f rs in (if p r then f r else r) ∷ rest

-- COALESCE(max(enrollment_seq)+1, 0) over the rows of the key
pub next_seq : Key → List Row → ℕ
next_seq k [] = 0
next_seq k (r ∷ rs) =
    let n = next_seq k rs in
    if is_of k r then (if leb n r.enrollment_seq then r.enrollment_seq + 1 else n) else n

pub new_row : Key → ℕ → ℕ → ℕ → Row
new_row k seq version due_at = record {
  tenant_id = k.tenant_id;
  journey_id = k.journey_id;
  customer_profile_id = k.customer_profile_id;
  enrollment_seq = seq;
  journey_version = version;
  status = active;
  current_step_index = pos 0;
  step_seq = 0;
  due_at = due_at;
  claimed_at = none;
  attempts = 0;
  parked_at = none;
  last_error = none;
}

-- `if maxEnrollments < 1 { maxEnrollments = 1 }`
abbrev pub at_least_one : ℕ → ℕ
at_least_one n = if ltb n 1 then 1 else n

-- Enroll: a version, a cap, the instant.
unfoldable pub enroll : Key → ℕ → ℕ → ℕ → List Row → List Row × Bool
unfolding count_where next_seq new_row
enroll k version max_enrollments due_at rows =
    if eqb (count_where (is_active_of k) rows) 0
      && ltb (count_where (is_of k) rows) (at_least_one max_enrollments)
    then (rows ++ new_row k (next_seq k rows) version due_at ∷ [], true)
    else (rows, false)

-- The row of journey that the subquery of ExitActiveEnrollmentsForSegment reads.
pub record JourneyHead : Type 0 where
  pub id : ℕ
  pub tenant_id : ℕ
  pub is_active_journey : Bool
  pub entry_segment_id : Option ℕ
  pub exit_on_segment_leave : Bool

abbrev pub is_entry : ℕ → Option ℕ → Bool
is_entry segment none = false
is_entry segment (some s) = eqb s segment

pub exits_on : ℕ → ℕ → ℕ → List JourneyHead → Bool
exits_on tenant segment journey [] = false
exits_on tenant segment journey (j ∷ js) =
    let rest = exits_on tenant segment journey js in
    (eqb j.id journey
      && eqb j.tenant_id tenant
      && is_entry segment j.entry_segment_id
      && j.exit_on_segment_leave
      && j.is_active_journey)
    || rest

abbrev pub exit_row : Row → Row
exit_row r = record r { status = exited; claimed_at = none; parked_at = none }

abbrev pub leaves_segment : List JourneyHead → ℕ → ℕ → ℕ → Row → Bool
leaves_segment journeys tenant segment profile r =
    eqb r.tenant_id tenant
    && eqb r.customer_profile_id profile
    && is_active r.status
    && exits_on tenant segment r.journey_id journeys

-- ExitActiveEnrollmentsForSegment: the tenant, the segment, the profile.
unfoldable pub exit_active : List JourneyHead → ℕ → ℕ → ℕ → List Row → List Row × ℕ
unfolding count_where update_where exits_on
exit_active journeys tenant segment profile rows =
    let p = leaves_segment journeys tenant segment profile in
    (update_where p exit_row rows, count_where p rows)

-- `claimed_at < t`
abbrev is_before : ℕ → Option ℕ → Bool
is_before t none = false
is_before t (some claimed) = ltb claimed t

-- The WHERE of ClaimDueEnrollments.
abbrev pub is_claimable : ℕ → ℕ → Row → Bool
is_claimable now reclaim r =
    is_active r.status
    && leb r.due_at now
    && not (is_some r.parked_at)
    && (not (is_some r.claimed_at) || is_before (now - reclaim) r.claimed_at)

-- The update of ClaimDueEnrollments. `chosen` are the rows that the ranking, the limits and
-- SKIP LOCKED leave of the claimable ones.
unfoldable pub claim : ℕ → ℕ → (Row → Bool) → List Row → List Row
unfolding update_where
claim now reclaim chosen rows =
    update_where (λ r. is_claimable now reclaim r && chosen r)
      (λ r. record r { claimed_at = some now }) rows

-- Enrollment: what a claim hands to the runner.
pub record Enrollment : Type 0 where
  pub tenant_id : ℕ
  pub journey_id : ℕ
  pub customer_profile_id : ℕ
  pub enrollment_seq : ℕ
  pub journey_version : ℕ
  pub current_step_index : ℤ
  pub step_seq : ℕ
  pub due_at : ℕ

abbrev pub key_of : Enrollment → Key
key_of e = record {
  tenant_id = e.tenant_id;
  journey_id = e.journey_id;
  customer_profile_id = e.customer_profile_id;
}

abbrev pub is_claimed_at : ℕ → Row → Bool
is_claimed_at fence r = elim r.claimed_at [ none ↦ false | some t ↦ eqb t fence ]

-- The WHERE of Advance.
abbrev pub holds_claim : Enrollment → ℕ → Row → Bool
holds_claim e fence r =
    is_run (key_of e) e.enrollment_seq r
    && is_active r.status
    && is_claimed_at fence r
    && eqb r.step_seq e.step_seq

abbrev pub advance_row : ℤ → ℕ → Status → Row → Row
advance_row index due_at status r = record r {
  current_step_index = index;
  due_at = due_at;
  status = status;
  step_seq = r.step_seq + 1;
  claimed_at = none;
  attempts = 0;
  last_error = none;
}

-- Advance: the enrollment, the fence, the new index, the new due_at, the new status.
unfoldable pub advance : Enrollment → ℕ → ℤ → ℕ → Status → List Row → List Row × Bool
unfolding count_where update_where
advance e fence index due_at status rows = (
  update_where (holds_claim e fence) (advance_row index due_at status) rows,
  eqb (count_where (holds_claim e fence) rows) 1,
)

-- The policy of FailEnrollment, its durations in whole seconds.
pub record ParkPolicy : Type 0 where
  pub base_seconds : ℕ
  pub cap_seconds : ℕ
  pub max_attempts : ℕ

abbrev pub second : ℕ
second = 1_000_000_000

abbrev min : ℕ → ℕ → ℕ
min a b = if leb a b then a else b

-- LEAST(cap, base * power(2, attempts)) seconds
abbrev pub backoff : ParkPolicy → ℕ → ℕ
backoff p attempts = second * min p.cap_seconds (p.base_seconds * 2 ^ attempts)

abbrev pub fail_row : ParkPolicy → ℕ → String → Row → Row
fail_row p now message r =
    let parks = leb p.max_attempts (r.attempts + 1) in
    record r {
      attempts = r.attempts + 1;
      last_error = some message;
      claimed_at = none;
      parked_at = if parks then some now else none;
      due_at = if parks then r.due_at else now + backoff p r.attempts;
    }

abbrev pub is_failing : Enrollment → Row → Bool
is_failing e r = is_run (key_of e) e.enrollment_seq r && is_active r.status

-- The first row of RETURNING attempts, parked_at IS NOT NULL.
pub returned : (Row → Bool) → (Row → Row) → List Row → Option (ℕ × Bool)
returned p f [] = none
returned p f (r ∷ rs) =
    let rest = returned p f rs in
    if p r then some ((f r).attempts, is_some (f r).parked_at) else rest

-- FailEnrollment; none where no row is left to fail. `message` is the error, cut to 500 bytes.
unfoldable pub fail : ParkPolicy → Enrollment → ℕ → String → List Row → List Row × Option (ℕ × Bool)
unfolding update_where returned
fail p e now message rows = (
  update_where (is_failing e) (fail_row p now message) rows,
  returned (is_failing e) (fail_row p now message) rows,
)

abbrev pub is_parked_of : Key → Row → Bool
is_parked_of k r = is_of k r && is_some r.parked_at

abbrev pub unpark_row : ℕ → Row → Row
unpark_row now r = record r {
  parked_at = none;
  attempts = 0;
  last_error = none;
  due_at = now;
  claimed_at = none;
}

-- UnparkEnrollment
unfoldable pub unpark : Key → ℕ → List Row → List Row × Bool
unfolding count_where update_where
unpark k now rows =
    (update_where (is_parked_of k) (unpark_row now) rows, ltb 0 (count_where (is_parked_of k) rows))
