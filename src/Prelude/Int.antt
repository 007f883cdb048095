-- ===== src/Prelude/Int.antt =====
-- Go's `int`: a sign and a native number. A range is stated where it matters.
use Prim.Native.Nat.{ℕ, zero, suc, ◌+◌, ◌-◌, ◌^◌, ◌%◌}
use mathlib.Core.Bool.{Bool, true, false}
use osscdp.Prelude.Tests.{ltb, leb, eqb}

-- `negsuc n` is -(n + 1).
pub data ℤ : Type 0 where
  pos : ℕ → ℤ
  negsuc : ℕ → ℤ

abbrev pub is_zero : ℤ → Bool
is_zero (pos n) = eqb n 0
is_zero (negsuc n) = false

-- `0 < z`
abbrev pub is_pos : ℤ → Bool
is_pos (pos n) = ltb 0 n
is_pos (negsuc n) = false

-- `z <= n`
abbrev pub at_most : ℤ → ℕ → Bool
at_most (pos z) n = leb z n
at_most (negsuc z) n = true

-- `n <= z`
abbrev pub at_least : ℤ → ℕ → Bool
at_least (pos z) n = leb n z
at_least (negsuc z) n = false

-- `z + 1`
abbrev pub succ : ℤ → ℤ
succ (pos n) = pos (n + 1)
succ (negsuc zero) = pos 0
succ (negsuc (suc n)) = negsuc n

-- `uint64(z)`
abbrev pub to_uint64 : ℤ → ℕ
to_uint64 (pos n) = n % 2 ^ 64
to_uint64 (negsuc n) = (2 ^ 64 - suc (n % 2 ^ 64)) % 2 ^ 64
