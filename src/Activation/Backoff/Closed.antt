-- ===== src/Activation/Backoff/Closed.antt =====
-- The delay in closed form.
use Prim.Native.Nat.{min}
use native.Mathlib.Nat.{pow-suc}
use osscdp.Prelude.{
  ℕ, zero, suc, ◌-◌, ◌*◌, ◌^◌, ◌≤◌, ◌<◌, ◌≡◌, arith, ltb, leb, if◌then◌else◌, Bool-cases, inl, inr,
  leb→le,
}
use osscdp.Activation.Backoff.{backoff_base, backoff_max, backoff_loop, backoff}

pow_pos : (n : ℕ) → 0 < 2 ^ n
pow_pos zero = omega arith
pow_pos (suc n) = omega (arith, pow_pos n, pow-suc 2 n)

double : (d n : ℕ) → d * 2 ^ suc n ≡ d * 2 * 2 ^ n
double d n = rw (pow-suc 2 n) (omega arith)

le-mul-pow : (d n : ℕ) → d ≤ d * 2 ^ n
le-mul-pow d n = let h = pow_pos n in grind arith

backoff_loop-min : (n d : ℕ) → backoff_loop n d ≡ min backoff_max (d * 2 ^ n)
unfolding backoff_loop
backoff_loop-min zero d = ground arith
backoff_loop-min (suc n) d =
    let e : d * 2 ^ suc n ≡ d * 2 * 2 ^ n = double d n in
    let grows : d * 2 ≤ d * 2 * 2 ^ n = le-mul-pow (d * 2) n in
    rw e (elim (Bool-cases (leb backoff_max (d * 2))) [
      | inl y ↦ rw y (omega (arith, leb→le backoff_max (d * 2) y))
      | inr m ↦ rw m (backoff_loop-min n (d * 2))
    ])

-- The delay before an attempt doubles from ten seconds with each attempt, and stays at fifteen
-- minutes once it has reached them.
pub backoff-min :
    (attempt : ℕ) → backoff attempt ≡ min backoff_max (backoff_base * 2 ^ (attempt - 1))
unfolding backoff
backoff-min attempt =
    let e : (if ltb attempt 1 then 1 else attempt) - 1 ≡ attempt - 1 = ground arith in
    rw e (backoff_loop-min (attempt - 1) backoff_base)
