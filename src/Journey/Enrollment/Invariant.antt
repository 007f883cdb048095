-- ===== src/Journey/Enrollment/Invariant.antt =====
-- The invariant of the enrollment table, and its preservation by each statement.
use osscdp.Prelude.{
  ℕ, ◌≤◌, ◌≡◌, refl, String, Bool, true, not, ◌&&◌, ◌||◌, is_some, List, [], ◌∷◌, ◌++◌, arith, All,
  All-snoc, Bool-cases, inl, inr, eqb, ltb, if◌then◌else◌, ℤ,
}
use osscdp.Journey.Enrollment.{
  Status, is_active, Row, Key, is_of, is_active_of, is_run, count_where, update_where, next_seq,
  new_row, enroll, JourneyHead, exit_row, exit_active, claim, Enrollment, advance, ParkPolicy, fail,
  unpark, at_least_one,
}
use osscdp.Journey.Enrollment.Counts.{
  count_where-append, count_where-update-le, count_where-update, update_where-All, next_seq-fresh,
}

-- Only active rows are claimed or parked, and none is both.
pub record RowOk (r : Row) : Type 0 where
  pub claimed_active : (not (is_some r.claimed_at) || is_active r.status) ≡ true
  pub parked_active : (not (is_some r.parked_at) || is_active r.status) ≡ true
  pub parked_unclaimed : (not (is_some r.parked_at) || not (is_some r.claimed_at)) ≡ true

-- A profile has one active run in a journey at most, and its runs have distinct numbers.
pub record Inv (rows : List Row) : Type 0 where
  pub one_active : (k : Key) → count_where (is_active_of k) rows ≤ 1
  pub distinct_runs : (k : Key) (seq : ℕ) → count_where (is_run k seq) rows ≤ 1
  pub rows_ok : All RowOk rows

-- A statement that updates rows keeps the invariant if it keeps keys, starts no run, and leaves
-- each row in order.
update_where-Inv :
    (p : Row → Bool) (f : Row → Row) (rows : List Row)
    → ((k : Key) (r : Row) → p r ≡ true → is_active_of k (f r) ≡ true → is_active_of k r ≡ true)
    → ((k : Key) (seq : ℕ) (r : Row) → is_run k seq (f r) ≡ is_run k seq r)
    → ((r : Row) → p r ≡ true → RowOk r → RowOk (f r))
    → Inv rows
    → Inv (update_where p f rows)
update_where-Inv p f rows starts_none keeps_keys keeps_ok inv = record {
  one_active = λ k.
      omega
        (arith, inv.one_active k, count_where-update-le p f (is_active_of k) (starts_none k) rows);
  distinct_runs = λ k seq. omega (
    arith,
    inv.distinct_runs k seq,
    count_where-update p f (is_run k seq) (keeps_keys k seq) rows,
  );
  rows_ok = update_where-All RowOk p f keeps_ok rows inv.rows_ok;
}

pub count_one : (q : Row → Bool) (r : Row) → count_where q (r ∷ []) ≡ (if q r then 1 else 0)
unfolding count_where
count_one q r = ground arith

pub key-new_row :
    (k k' : Key) (seq version due : ℕ) → is_of k' (new_row k seq version due) ≡ true → k' ≡ k
unfolding new_row
key-new_row k k' seq version due h = ground arith

insert-Inv :
    (k : Key) (version due : ℕ) (rows : List Row)
    → count_where (is_active_of k) rows ≡ 0
    → Inv rows
    → Inv (rows ++ new_row k (next_seq k rows) version due ∷ [])
insert-Inv k version due rows idle inv = record {
  one_active = λ k'. elim (Bool-cases (is_of k' new)) [
    | inl same ↦
        let e : k' ≡ k = key-new_row k k' (next_seq k rows) version due same in
        let idle' : count_where (is_active_of k') rows ≡ 0 = rw e idle in
        ground (
          arith,
          count_where-append (is_active_of k') rows (new ∷ []),
          count_one (is_active_of k') new,
        )
    | inr other ↦ ground (
      arith,
      count_where-append (is_active_of k') rows (new ∷ []),
      count_one (is_active_of k') new,
      inv.one_active k',
    )
  ];
  distinct_runs = λ k' seq. elim (Bool-cases (is_run k' seq new)) [
    | inl same ↦
        let e : k' ≡ k = key-new_row k k' (next_seq k rows) version due (ground arith) in
        let fresh : count_where (is_run k' seq) rows ≡ 0 =
          rw e (next_seq-fresh k seq rows (unfold new_row in ground arith)) in
        ground
          (arith, count_where-append (is_run k' seq) rows (new ∷ []), count_one (is_run k' seq) new)
    | inr other ↦ ground (
      arith,
      count_where-append (is_run k' seq) rows (new ∷ []),
      count_one (is_run k' seq) new,
      inv.distinct_runs k' seq,
    )
  ];
  rows_ok = All-snoc RowOk rows new inv.rows_ok (unfold new_row in ground arith);
}
  where
    new : Row
    new = new_row k (next_seq k rows) version due

pub enroll-Inv :
    (k : Key) (version max_enrollments due_at : ℕ) (rows : List Row)
    → Inv rows
    → Inv (enroll k version max_enrollments due_at rows).0
unfolding enroll
enroll-Inv k version cap due rows inv =
    elim (Bool-cases (
      eqb (count_where (is_active_of k) rows) 0
      && ltb (count_where (is_of k) rows) (at_least_one cap))) [
        | inl y ↦ rw y (insert-Inv k version due rows (ground arith) inv)
        | inr n ↦ rw n inv
      ]

pub exit_active-Inv :
    (js : List JourneyHead) (t s p : ℕ) (rows : List Row)
    → Inv rows
    → Inv (exit_active js t s p rows).0
unfolding exit_active
exit_active-Inv js t s p rows inv =
    update_where-Inv _ exit_row rows (λ k r a b. ground arith) (λ k seq r. refl)
      (λ r a x. ground arith) inv

pub claim-Inv :
    (now reclaim : ℕ) (chosen : Row → Bool) (rows : List Row)
    → Inv rows
    → Inv (claim now reclaim chosen rows)
unfolding claim
claim-Inv now reclaim chosen rows inv =
    update_where-Inv _ _ rows (λ k r a b. ground arith) (λ k seq r. refl) (λ r a x. ground arith)
      inv

pub advance-Inv :
    (e : Enrollment) (fence : ℕ) (index : ℤ) (due : ℕ) (status : Status) (rows : List Row)
    → Inv rows
    → Inv (advance e fence index due status rows).0
unfolding advance
advance-Inv e fence index due status rows inv =
    update_where-Inv _ _ rows (λ k r a b. ground arith) (λ k seq r. refl) (λ r a x. ground arith)
      inv

pub fail-Inv :
    (p : ParkPolicy) (e : Enrollment) (now : ℕ) (message : String) (rows : List Row)
    → Inv rows
    → Inv (fail p e now message rows).0
unfolding fail
fail-Inv p e now message rows inv =
    update_where-Inv _ _ rows (λ k r a b. ground arith) (λ k seq r. refl) (λ r a x. ground arith)
      inv

pub unpark-Inv : (k : Key) (now : ℕ) (rows : List Row) → Inv rows → Inv (unpark k now rows).0
unfolding unpark
unpark-Inv k now rows inv =
    update_where-Inv _ _ rows (λ k r a b. ground arith) (λ k seq r. refl) (λ r a x. ground arith)
      inv
