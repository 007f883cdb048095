-- ===== src/Journey/Enrollment/Counts.antt =====
-- Counting the rows of the enrollment table across an update and an insertion.
use osscdp.Prelude.{
  ℕ, ◌+◌, ◌≤◌, ◌≡◌, refl, Bool, true, false, List, [], ◌∷◌, ◌++◌, arith, All, Bool-cases, inl, inr,
}
use osscdp.Journey.Enrollment.{Row, Key, is_run, count_where, update_where, next_seq}

pub count_where-append :
    (p : Row → Bool) (rs ss : List Row)
    → count_where p (rs ++ ss) ≡ count_where p rs + count_where p ss
unfolding count_where
count_where-append p [] ss = omega arith
count_where-append p (r ∷ rs) ss = ground (arith, count_where-append p rs ss)

-- An update that makes no row satisfy `q` does not raise the count of `q`.
pub count_where-update-le :
    (p : Row → Bool) (f : Row → Row) (q : Row → Bool)
    → ((r : Row) → p r ≡ true → q (f r) ≡ true → q r ≡ true)
    → (rs : List Row) → count_where q (update_where p f rs) ≤ count_where q rs
unfolding count_where update_where
count_where-update-le p f q keeps [] = omega arith
count_where-update-le p f q keeps (r ∷ rs) =
    ground (arith, keeps r, count_where-update-le p f q keeps rs)

-- An update that leaves `q` as it is leaves its count.
pub count_where-update :
    (p : Row → Bool) (f : Row → Row) (q : Row → Bool)
    → ((r : Row) → q (f r) ≡ q r)
    → (rs : List Row) → count_where q (update_where p f rs) ≡ count_where q rs
unfolding count_where update_where
count_where-update p f q keeps [] = refl
count_where-update p f q keeps (r ∷ rs) = ground (arith, keeps r, count_where-update p f q keeps rs)

-- After an update that makes its own condition false, no row satisfies it.
pub count_where-update_self :
    (p : Row → Bool) (f : Row → Row)
    → ((r : Row) → p (f r) ≡ false)
    → (rs : List Row) → count_where p (update_where p f rs) ≡ 0
unfolding count_where update_where
count_where-update_self p f stops [] = refl
count_where-update_self p f stops (r ∷ rs) =
    ground (arith, stops r, count_where-update_self p f stops rs)

-- An update whose condition no row satisfies changes nothing.
pub update_where_none :
    (p : Row → Bool) (f : Row → Row) (rs : List Row)
    → count_where p rs ≡ 0
    → update_where p f rs ≡ rs
unfolding count_where update_where
update_where_none p f [] h = refl
update_where_none p f (r ∷ rs) h = ground (arith, update_where_none p f rs)

pub update_where-All {ℓ} :
    (P : Row → Type ℓ) (p : Row → Bool) (f : Row → Row)
    → ((r : Row) → p r ≡ true → P r → P (f r))
    → (rs : List Row) → All P rs
    → All P (update_where p f rs)
unfolding update_where
update_where-All P p f keeps [] h = h
update_where-All P p f keeps (r ∷ rs) h = elim (Bool-cases (p r)) [
  | inl y ↦ rw y (keeps r y h.0, update_where-All P p f keeps rs h.1)
  | inr n ↦ rw n (h.0, update_where-All P p f keeps rs h.1)
]

-- The number of a new run is larger than all that the key has.
pub next_seq-fresh :
    (k : Key) (seq : ℕ) (rs : List Row) → next_seq k rs ≤ seq → count_where (is_run k seq) rs ≡ 0
unfolding count_where next_seq
next_seq-fresh k seq [] h = refl
next_seq-fresh k seq (r ∷ rs) h = ground (arith, next_seq-fresh k seq rs)

-- Fewer rows satisfy the stronger of two conditions.
pub count_where-le :
    (p q : Row → Bool)
    → ((r : Row) → p r ≡ true → q r ≡ true)
    → (rs : List Row) → count_where p rs ≤ count_where q rs
unfolding count_where
count_where-le p q weaker [] = omega arith
count_where-le p q weaker (r ∷ rs) = ground (arith, weaker r, count_where-le p q weaker rs)

pub update_where-capped :
    (p : Row → Bool) (f : Row → Row) (q : Row → Bool)
    → ((r : Row) → q (f r) ≡ q r)
    → (rs : List Row) {limit : ℕ} → count_where q rs ≤ limit
    → count_where q (update_where p f rs) ≤ limit
update_where-capped p f q keeps rs h = omega (arith, count_where-update p f q keeps rs)

-- No row satisfies `q` after an update that stops it where it applies, if it held nowhere else.
pub count_where-update_stops :
    (p : Row → Bool) (f : Row → Row) (q : Row → Bool)
    → ((r : Row) → p r ≡ true → q (f r) ≡ false)
    → ((r : Row) → p r ≡ false → q r ≡ false)
    → (rs : List Row) → count_where q (update_where p f rs) ≡ 0
unfolding count_where update_where
count_where-update_stops p f q stops elsewhere [] = refl
count_where-update_stops p f q stops elsewhere (r ∷ rs) =
    ground (arith, stops r, elsewhere r, count_where-update_stops p f q stops elsewhere rs)
