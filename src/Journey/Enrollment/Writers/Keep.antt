-- ===== src/Journey/Enrollment/Writers/Keep.antt =====
-- The invariant of the enrollment table through the other writers.
use osscdp.Prelude.{
  ℕ, ◌≤◌, ◌≡◌, ap, subst, Bool, true, false, Option, none, some, List, [], ◌∷◌, ◌++◌, ◌+◌, arith,
  All, All-snoc, Bool-cases, inl, inr, eqb, eqb→eq,
}
use osscdp.Journey.Enrollment.{
  Row, Key, is_of, is_active_of, is_run, count_where, update_where, new_row,
}
use osscdp.Journey.Enrollment.Counts.{
  count_where-append, count_where-update-le, count_where-le, update_where-All,
}
use osscdp.Journey.Enrollment.Invariant.{RowOk, Inv, count_one, key-new_row}
use osscdp.Journey.Enrollment.Writers.{
  seed_key, seed_page, delete_where, is_of_profile, moves_run, moved_run, reparent_runs,
}

seed_one-Inv :
    (k : Key) (version due : ℕ) (rows : List Row)
    → count_where (is_run k 0) rows ≡ 0
    → count_where (is_active_of k) rows ≡ 0
    → Inv rows
    → Inv (rows ++ new_row k 0 version due ∷ [])
seed_one-Inv k version due rows none_0 idle inv = record {
  one_active = λ k'. elim (Bool-cases (is_of k' new)) [
    | inl same ↦
        let idle' : count_where (is_active_of k') rows ≡ 0 =
          rw (key-new_row k k' 0 version due same) idle in
        ground (
          arith,
          count_where-append (is_active_of k') rows (new ∷ []),
          count_one (is_active_of k') new,
        )
    | inr other ↦ ground (
      arith,
      count_where-append (is_active_of k') rows (new ∷ []),
      count_one (is_active_of k') new,
      inv.one_active k',
    )
  ];
  distinct_runs = λ k' seq. elim (Bool-cases (is_run k' seq new)) [
    | inl same ↦
        let e : k' ≡ k = key-new_row k k' 0 version due (ground arith) in
        let z : seq ≡ 0 = unfold new_row in ground arith in
        let fresh : count_where (is_run k' seq) rows ≡ 0 = rw (e, z) none_0 in
        ground
          (arith, count_where-append (is_run k' seq) rows (new ∷ []), count_one (is_run k' seq) new)
    | inr other ↦ ground (
      arith,
      count_where-append (is_run k' seq) rows (new ∷ []),
      count_one (is_run k' seq) new,
      inv.distinct_runs k' seq,
    )
  ];
  rows_ok = All-snoc RowOk rows new inv.rows_ok (unfold new_row in ground arith);
}
  where
    new : Row
    new = new_row k 0 version due

abbrev or_rows : List Row → Option (List Row) → List Row
or_rows d none = d
or_rows d (some x) = x

pub seed_page-Inv :
    (tenant journey version due : ℕ) (ps : List ℕ) (rows : List Row) {rows' : List Row}
    → seed_page tenant journey version due ps rows ≡ some rows'
    → Inv rows
    → Inv rows'
unfolding seed_page
seed_page-Inv tenant journey version due [] rows {rows'} h inv = subst Inv (ap (or_rows rows) h) inv
seed_page-Inv tenant journey version due (p ∷ ps) rows {rows'} h inv =
    let k = seed_key tenant journey p in
    elim (Bool-cases (eqb (count_where (is_run k 0) rows) 0)) [
      | inr taken ↦ seed_page-Inv tenant journey version due ps rows (rw taken at h) inv
      | inl free ↦ elim (Bool-cases (eqb (count_where (is_active_of k) rows) 0)) [
        | inr busy ↦ absurd (let h' : none ≡ some rows' = rw (free, busy) at h in ground arith)
        | inl idle ↦
            seed_page-Inv tenant journey version due ps (rows ++ new_row k 0 version due ∷ [])
              (rw (free, idle) at h)
              (seed_one-Inv k version due rows (eqb→eq _ _ free) (eqb→eq _ _ idle) inv)
      ]
    ]

count_where-delete :
    (q p : Row → Bool) (rows : List Row) → count_where q (delete_where p rows) ≤ count_where q rows
unfolding count_where delete_where
count_where-delete q p [] = omega arith
count_where-delete q p (r ∷ rs) = ground (arith, count_where-delete q p rs)

delete_where-All :
    (p : Row → Bool) (rows : List Row) → All RowOk rows → All RowOk (delete_where p rows)
unfolding delete_where
delete_where-All p [] a = tt
delete_where-All p (r ∷ rs) (a, b) = elim (Bool-cases (p r)) [
  | inl y ↦ rw y (delete_where-All p rs b)
  | inr n ↦ rw n (a, delete_where-All p rs b)
]

pub delete_where-Inv : (p : Row → Bool) (rows : List Row) → Inv rows → Inv (delete_where p rows)
delete_where-Inv p rows inv = record {
  one_active = λ k. omega (arith, inv.one_active k, count_where-delete (is_active_of k) p rows);
  distinct_runs =
      λ k seq. omega (arith, inv.distinct_runs k seq, count_where-delete (is_run k seq) p rows);
  rows_ok = delete_where-All p rows inv.rows_ok;
}

-- An updated row that is counted was counted by `q'`, or it is an old one.
count_where-update-both :
    (p : Row → Bool) (f : Row → Row) (q q' : Row → Bool)
    → ((r : Row) → p r ≡ true → q (f r) ≡ true → q' r ≡ true)
    → (rs : List Row) → count_where q (update_where p f rs) ≤ count_where q' rs + count_where q rs
unfolding count_where update_where
count_where-update-both p f q q' h [] = omega arith
count_where-update-both p f q q' h (r ∷ rs) =
    ground (arith, h r, count_where-update-both p f q q' h rs)

module _ (tenant loser survivor : ℕ) (rows : List Row) where
  abbrev moved : List Row
  moved = update_where (moves_run tenant loser survivor rows) (moved_run survivor) rows

  abbrev of_loser : Key → Key
  of_loser k = record k { customer_profile_id = loser }

  -- A count at a key of the moved table is that of the loser's key, or that of before.
  count_where-moved :
      (q : Key → Row → Bool) (k : Key)
      → ((k' : Key) (r : Row) → q k' r ≡ true → is_of k' r ≡ true)
      → ((r : Row)
          → is_of_profile tenant loser r ≡ true
          → q k (moved_run survivor r) ≡ true
          → q (of_loser k) r ≡ true)
      → ((k' : Key) → count_where (q k') rows ≤ 1)
      → count_where (q k) moved ≤ 1
  count_where-moved q k own back one = elim (Bool-cases (eqb (count_where (is_of k) rows) 0)) [
    | inl z ↦
        let few : count_where (q k) rows ≤ count_where (is_of k) rows =
          count_where-le (q k) (is_of k) (own k) rows in
        let z' : count_where (is_of k) rows ≡ 0 = eqb→eq _ _ z in
        omega (
          arith,
          one (of_loser k),
          count_where-update-both (moves_run tenant loser survivor rows) (moved_run survivor) (q k)
              (q (of_loser k)) (λ r a b. back r (ground arith) b) rows,
        )
    | inr n ↦ omega (
      arith,
      one k,
      count_where-update-le (moves_run tenant loser survivor rows) (moved_run survivor) (q k)
          (λ r a b. absurd (none_moved k r n a (own k (moved_run survivor r) b))) rows,
    )
  ]
    where
      same_key :
          (k : Key) (r : Row)
          → is_of_profile tenant loser r ≡ true
          → is_of k (moved_run survivor r) ≡ true
          → seed_key tenant r.journey_id survivor ≡ k
      same_key k r a b =
          let t : tenant ≡ k.tenant_id = ground arith in
          let j : r.journey_id ≡ k.journey_id = ground arith in
          let p : survivor ≡ k.customer_profile_id = ground arith in
          λ i. record { tenant_id = t i; journey_id = j i; customer_profile_id = p i }

      none_moved :
          (k : Key) (r : Row)
          → eqb (count_where (is_of k) rows) 0 ≡ false
          → moves_run tenant loser survivor rows r ≡ true
          → is_of k (moved_run survivor r) ≡ true
          → ⊥
      none_moved k r n a b =
          let e = same_key k r (ground arith) b in
          let y : eqb (count_where (is_of (seed_key tenant r.journey_id survivor)) rows) 0 ≡ true =
            ground arith in
          let y' : eqb (count_where (is_of k) rows) 0 ≡ true =
            subst (λ (x : Key). eqb (count_where (is_of x) rows) 0 ≡ true) e y in
          ground arith

  pub reparent_runs-Inv : Inv rows → Inv (reparent_runs tenant loser survivor rows)
  unfolding reparent_runs
  reparent_runs-Inv inv = delete_where-Inv _ moved (record {
    one_active = λ k.
        count_where-moved is_active_of k (λ k' r a. ground arith) (λ r a b. ground arith)
          inv.one_active;
    distinct_runs = λ k seq.
        count_where-moved (λ k'. is_run k' seq) k (λ k' r a. ground arith) (λ r a b. ground arith)
          (λ k'. inv.distinct_runs k' seq);
    rows_ok =
        update_where-All RowOk (moves_run tenant loser survivor rows) (moved_run survivor)
          (λ r a x. ground arith) rows inv.rows_ok;
  })
