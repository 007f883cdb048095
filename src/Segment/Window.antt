-- ===== src/Segment/Window.antt =====
-- internal/segment/dsl.go, `ParseWindow`. An int64, a time.Duration too, is its 64-bit pattern.
use osscdp.Prelude.{
  ℕ, ◌+◌, ◌-◌, ◌*◌, ◌%◌, ◌^◌, String, Bool, ◌&&◌, Option, none, some, List, [], ◌∷◌, ltb, leb, eqb,
  if◌then◌else◌, codes, is_empty, Result, ok, err, ◌>>=◌, ◌>>◌, refuse_if, not,
}
use osscdp.Runtime.{Runtime}

pub data WindowError : Type 0 where
  empty_window invalid_window not_positive : WindowError

abbrev pub int64_mod : ℕ
int64_mod = 2 ^ 64

-- `d > 0` of an int64
abbrev pub is_positive : ℕ → Bool
is_positive d = ltb 0 d && ltb d (2 ^ 63)

-- 24 * time.Hour
abbrev pub day_nanos : ℕ
day_nanos = 86_400_000_000_000

is_digit : ℕ → Bool
is_digit c = leb b'0' c && leb c b'9'

-- The digits that are left, and the number that those before them make.
digits_from : ℕ → List ℕ → Option ℕ
digits_from acc [] = some acc
digits_from acc (c ∷ cs) =
    let rest = digits_from (acc * 10 + (c - b'0')) cs in if is_digit c then rest else none

-- At least one digit.
unsigned : List ℕ → Option ℕ
unsigned [] = none
unsigned (c ∷ cs) = digits_from 0 (c ∷ cs)

in_range_pos : Option ℕ → Option ℕ
in_range_pos none = none
in_range_pos (some n) = if ltb n (2 ^ 63) then some n else none

in_range_neg : Option ℕ → Option ℕ
in_range_neg none = none
in_range_neg (some n) = if leb n (2 ^ 63) then some ((int64_mod - n) % int64_mod) else none

-- strconv.Atoi: an optional sign, decimal digits, and a value that fits an int64.
atoi : List ℕ → Option ℕ
unfolding digits_from unsigned in_range_pos in_range_neg is_digit
atoi [] = none
atoi (c ∷ cs) =
    if eqb c b'+'
    then in_range_pos (unsigned cs)
    else if eqb c b'-'
    then in_range_neg (unsigned cs)
    else in_range_pos (unsigned (c ∷ cs))

-- strings.TrimSuffix(s, "d") where strings.HasSuffix(s, "d"), and none where it does not hold.
cut_day_suffix : List ℕ → Option (List ℕ)
cut_day_suffix [] = none
cut_day_suffix (c ∷ []) = if eqb c b'd' then some [] else none
cut_day_suffix (c ∷ c' ∷ cs) = elim (cut_day_suffix (c' ∷ cs)) [
  | none ↦ none
  | some front ↦ some (c ∷ front)
]

-- `d, err := ...` before the sign test. `time.Duration(days) * 24 * time.Hour` wraps.
window_value : Runtime → String → Option ℕ
unfolding atoi cut_day_suffix
window_value rt s = elim (cut_day_suffix (codes s)) [
  | none ↦ rt.parse_duration s
  | some front ↦ elim (atoi front) [ none ↦ none | some days ↦ some (days * day_nanos % int64_mod) ]
]

or_invalid : Option ℕ → Result WindowError ℕ
or_invalid none = err invalid_window
or_invalid (some d) = ok d

unfoldable pub parse_window : Runtime → String → Result WindowError ℕ
unfolding window_value or_invalid
parse_window rt s = do
  refuse_if (is_empty s) empty_window
  d ← or_invalid (window_value rt s)
  refuse_if (not (is_positive d)) not_positive
  ok d
