-- ===== src/Journey/Enrollment/Fence.antt =====
-- The claim fence, and the idempotence of the statements under redelivery.
use osscdp.Prelude.{
  ℕ, ◌+◌, ◌≤◌, ◌≡◌, refl, String, Bool, true, false, ◌&&◌, none, List, [], ◌∷◌, ◌++◌, arith,
  Bool-cases, inl, inr, eqb, ltb, ℤ,
}
use osscdp.Journey.Enrollment.{
  Status, Row, Key, is_of, is_active_of, count_where, next_seq, new_row, at_least_one, enroll,
  JourneyHead, exit_row, exits_on, exit_active, leaves_segment, Enrollment, holds_claim,
  advance_row, advance, ParkPolicy, is_failing, fail_row, fail, returned,
}
use osscdp.Journey.Enrollment.Invariant.{count_one}
use osscdp.Journey.Enrollment.Counts.{
  count_where-append, count_where-le, count_where-update_self, count_where-update_stops,
  update_where_none,
}

-- An Advance that no row answers to changes nothing and says so.
advance_none :
    (e : Enrollment) (fence : ℕ) (index : ℤ) (due_at : ℕ) (status : Status) (rows : List Row)
    → count_where (holds_claim e fence) rows ≡ 0
    → advance e fence index due_at status rows ≡ (rows, false)
unfolding advance
advance_none e fence index due status rows h =
    rw (update_where_none (holds_claim e fence) (advance_row index due status) rows h)
      (ground arith)

-- A claim is spent by the first Advance under its fence: a second one, whatever it would write,
-- changes nothing and returns false.
pub advance_once :
    (e : Enrollment) (fence : ℕ) (index index' : ℤ) (due_at due_at' : ℕ) (status status' : Status)
    (rows : List Row)
    → advance e fence index' due_at' status' (advance e fence index due_at status rows).0
      ≡ ((advance e fence index due_at status rows).0, false)
advance_once e fence index index' due due' status status' rows =
    advance_none e fence index' due' status' (advance e fence index due status rows).0 (
      unfold advance in
      count_where-update_self (holds_claim e fence) (advance_row index due status)
        (λ r. ground arith) rows)

returned-none :
    (q : Row → Bool) (f : Row → Row) (rows : List Row)
    → count_where q rows ≡ 0
    → returned q f rows ≡ none
unfolding count_where returned
returned-none q f [] h = refl
returned-none q f (r ∷ rs) h = ground (arith, returned-none q f rs)

fail-none :
    (p : ParkPolicy) (e : Enrollment) (now : ℕ) (message : String) (rows : List Row)
    → count_where (is_failing e) rows ≡ 0
    → fail p e now message rows ≡ (rows, none)
unfolding fail
fail-none p e now message rows h = rw (
  update_where_none (is_failing e) (fail_row p now message) rows h,
  returned-none (is_failing e) (fail_row p now message) rows h,
)

module _ (js : List JourneyHead) (segment : ℕ) (e : Enrollment) (rows : List Row) where
  abbrev after_exit : List Row
  after_exit = (exit_active js e.tenant_id segment e.customer_profile_id rows).0

  none_failing :
      exits_on e.tenant_id segment e.journey_id js ≡ true
      → count_where (is_failing e) after_exit ≡ 0
  unfolding exit_active
  none_failing h =
      count_where-update_stops (leaves_segment js e.tenant_id segment e.customer_profile_id)
        exit_row (is_failing e) (λ r a. ground arith) (λ r n. ground arith) rows

  -- After the exit of a profile from a journey that exits on leaving the segment, a runner that has
  -- claimed the run before writes nothing: its Advance returns false, its FailEnrollment finds no
  -- row, and neither changes the table.
  pub exit_active-wins :
      (fence : ℕ) (index : ℤ) (due_at : ℕ) (status : Status) (p : ParkPolicy) (now : ℕ)
      (message : String)
      → exits_on e.tenant_id segment e.journey_id js ≡ true
      → (advance e fence index due_at status after_exit ≡ (after_exit, false))
        × (fail p e now message after_exit ≡ (after_exit, none))
  exit_active-wins fence index due status p now message h =
      let idle = none_failing h in
      let held : count_where (holds_claim e fence) after_exit
          ≤ count_where (is_failing e) after_exit =
        count_where-le (holds_claim e fence) (is_failing e) (λ r a. ground arith) after_exit in
      (
        advance_none e fence index due status after_exit (omega arith),
        fail-none p e now message after_exit idle,
      )

count_pos-append :
    (q : Row → Bool) (rows : List Row) (r : Row)
    → q r ≡ true
    → count_where q (rows ++ r ∷ []) ≡ count_where q rows + 1
count_pos-append q rows r h = ground (arith, count_where-append q rows (r ∷ []), count_one q r)

-- An entry that is delivered twice, with no statement in between: the second Enroll under the same cap,
-- whatever its version and instant, changes nothing and returns false.
pub enroll_again :
    (k : Key) (v v' cap d d' : ℕ) (rows : List Row)
    → enroll k v' cap d' (enroll k v cap d rows).0 ≡ ((enroll k v cap d rows).0, false)
unfolding enroll
enroll_again k v v' cap d d' rows =
    elim (Bool-cases (
      eqb (count_where (is_active_of k) rows) 0
      && ltb (count_where (is_of k) rows) (at_least_one cap))) [
        | inr n ↦ rw (n, n)
        | inl y ↦ rw y (
            ground (
              arith,
              count_pos-append (is_active_of k) rows (new_row k (next_seq k rows) v d)
                  (unfold new_row in ground arith),
            ))
      ]
