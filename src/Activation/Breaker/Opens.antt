-- ===== src/Activation/Breaker/Opens.antt =====
-- When the breaker opens.
use mathlib.Core.List.{append-nil, append_assoc}
use osscdp.Prelude.{
  ℕ, ◌+◌, ◌≤◌, ◌<◌, ◌≡◌, refl, ◌∙◌, sym, ap, true, false, List, [], ◌∷◌, ◌++◌, length, arith, All,
  leb, if◌then◌else◌, length-append, All-snoc,
}
use osscdp.Activation.Breaker.{Config, BkState, kept_failures, record_failure}

-- The failures are recorded in turn.
pub record_failures : Config → List ℕ → BkState → BkState
record_failures c [] s = s
record_failures c (t ∷ ts) s = record_failures c ts (record_failure c t s)

-- A time in the window that begins at `from`.
abbrev pub InWindow : Config → ℕ → ℕ → Type 0
InWindow c from t = (from ≤ t) × (t < from + c.window)

abbrev pub closed_with : List ℕ → ℕ → BkState
closed_with fs at = record { failures = fs; opened_at = at; is_open = false; half_open = false }

kept-All :
    (c : Config) (from now : ℕ) (ts : List ℕ)
    → now < from + c.window
    → All (InWindow c from) ts
    → kept_failures c now ts ≡ ts
unfolding kept_failures
kept-All c from now [] h a = refl
kept-All c from now (t ∷ ts) h a = ground (arith, kept-All c from now ts)

-- Failures of one window that are fewer than the threshold are all kept.
failures-kept :
    (c : Config) (from : ℕ) (ts fs : List ℕ) (at : ℕ)
    → All (InWindow c from) fs
    → All (InWindow c from) ts
    → length fs + length ts < c.threshold
    → record_failures c ts (closed_with fs at) ≡ closed_with (fs ++ ts) at
unfolding record_failures record_failure
failures-kept c from [] fs at a b h = ap (λ l. closed_with l at) (sym (append-nil fs))
failures-kept c from (t ∷ ts) fs at a b h =
    let k = kept-All c from t fs b.0.1 a in
    let len = length-append fs (t ∷ []) in
    let few : leb c.threshold (length (fs ++ t ∷ [])) ≡ false = ground arith in
    rw (k, few)
      (failures-kept c from ts (fs ++ t ∷ []) at (All-snoc (InWindow c from) fs t a b.0) b.1
          (omega arith)
        ∙ ap (λ l. closed_with l at) (append_assoc fs (t ∷ []) ts))

-- The breaker that a failure has opened at its instant.
abbrev pub open_since : ℕ → BkState
open_since now = record { failures = []; opened_at = now; is_open = true; half_open = false }

-- A destination whose breaker is closed, whenever it was opened last, with no failure on record, and
-- then failures within one window, with no success between them: as long as they are fewer than the
-- threshold, the breaker stays closed and has them all on record, and the failure that makes up the
-- threshold opens it at its own instant and clears the record.
pub opens_at_threshold :
    (c : Config) (from : ℕ) (ts : List ℕ) (t before : ℕ)
    → All (InWindow c from) ts
    → InWindow c from t
    → length ts < c.threshold
    → (record_failures c ts (closed_with [] before) ≡ closed_with ts before)
      × (record_failure c t (record_failures c ts (closed_with [] before)) ≡ (
          if leb c.threshold (length ts + 1)
          then open_since t
          else closed_with (ts ++ t ∷ []) before))
unfolding record_failure
opens_at_threshold c from ts t before a b h =
    let k = kept-All c from t ts b.1 a in
    let e : record_failures c ts (closed_with [] before) ≡ closed_with ts before =
      failures-kept c from ts [] before tt a (omega arith) in
    let n : length (ts ++ t ∷ []) ≡ length ts + 1 = length-append ts (t ∷ []) in
    (e, rw (e, k, n) refl)
