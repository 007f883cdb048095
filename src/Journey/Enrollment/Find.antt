-- ===== src/Journey/Enrollment/Find.antt =====
-- The row of one run, through Advance.
use osscdp.Prelude.{
  ℕ, ℤ, true, false, Option, none, some, List, [], ◌∷◌, if◌then◌else◌, ◌≡◌, refl, ap, arith,
  Bool-cases, inl, inr,
}
use osscdp.Journey.Enrollment.{
  Status, Row, Enrollment, key_of, is_run, holds_claim, update_where, advance_row, advance,
}

-- The row of the run that an enrollment is of.
unfoldable pub find_run : Enrollment → List Row → Option Row
find_run e [] = none
find_run e (r ∷ rs) =
    let rest = find_run e rs in if is_run (key_of e) e.enrollment_seq r then some r else rest

abbrev or_row : Row → Option Row → Row
or_row r none = r
or_row r (some x) = x

find_run-update :
    (e : Enrollment) (fence : ℕ) (f : Row → Row) (rows : List Row) {r : Row}
    → ((x : Row) → is_run (key_of e) e.enrollment_seq (f x) ≡ is_run (key_of e) e.enrollment_seq x)
    → find_run e rows ≡ some r
    → holds_claim e fence r ≡ true
    → find_run e (update_where (holds_claim e fence) f rows) ≡ some (f r)
unfolding find_run update_where
find_run-update e fence f [] k h c = absurd (ground arith)
find_run-update e fence f (x ∷ xs) {r} k h c =
    elim (Bool-cases (is_run (key_of e) e.enrollment_seq x)) [
      | inl y ↦
          let same : x ≡ r = ap (or_row x) (rw y at h) in
          rw (same, c, k r)
            (let y' : is_run (key_of e) e.enrollment_seq r ≡ true = rw same at y in rw y' refl)
      | inr n ↦
          let idle : holds_claim e fence x ≡ false = ground arith in
          rw (idle, n) (find_run-update e fence f xs k (rw n at h) c)
    ]

-- The run whose claim is held is the row that Advance writes.
pub find_run-advance :
    (e : Enrollment) (fence : ℕ) (index : ℤ) (due_at : ℕ) (status : Status) (rows : List Row)
    {r : Row}
    → find_run e rows ≡ some r
    → holds_claim e fence r ≡ true
    → find_run e (advance e fence index due_at status rows).0
      ≡ some (advance_row index due_at status r)
unfolding advance
find_run-advance e fence index due_at status rows h c =
    find_run-update e fence (advance_row index due_at status) rows (λ x. refl) h c
