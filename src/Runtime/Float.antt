-- ===== src/Runtime/Float.antt =====
-- float64 values as their IEEE 754 bit patterns, with Go's comparisons.
use osscdp.Prelude.{ℕ, ◌%◌, ◌^◌, Bool, false, not, ◌&&◌, ◌||◌, ltb, leb, eqb, if◌then◌else◌}

-- A float64 is a number below 2 ^ 64.
abbrev pub Float64 : Type 0
Float64 = ℕ

abbrev magnitude : Float64 → ℕ
magnitude f = f % 2 ^ 63

abbrev is_negative : Float64 → Bool
is_negative f = leb (2 ^ 63) f

-- The exponent is all ones and the fraction is not zero.
unfoldable pub is_nan : Float64 → Bool
is_nan f = ltb 0x7ff0000000000000 (magnitude f)

-- Both zeros have one place in the order.
below : Float64 → Float64 → Bool
below f g =
    if is_negative f
    then (if is_negative g
        then ltb (magnitude g) (magnitude f)
        else not (eqb (magnitude f) 0 && eqb (magnitude g) 0))
    else (if is_negative g then false else ltb (magnitude f) (magnitude g))

same : Float64 → Float64 → Bool
same f g = not (below f g) && not (below g f)

-- Every comparison with a NaN is false.
unfoldable pub float_lt : Float64 → Float64 → Bool
unfolding is_nan below
float_lt f g = not (is_nan f) && not (is_nan g) && below f g

unfoldable pub float_eq : Float64 → Float64 → Bool
unfolding is_nan below same
float_eq f g = not (is_nan f) && not (is_nan g) && same f g

unfoldable pub float_le : Float64 → Float64 → Bool
unfolding float_lt float_eq
float_le f g = float_lt f g || float_eq f g
