-- ===== src/Activation/Backoff.antt =====
-- internal/activation/backoff.go. A time.Duration is its nanoseconds.
pub mod Closed
pub mod Examples
use osscdp.Prelude.{ℕ, zero, suc, ◌-◌, ◌*◌, ltb, leb, if◌then◌else◌}

abbrev pub backoff_base : ℕ
backoff_base = 10_000_000_000

abbrev pub backoff_max : ℕ
backoff_max = 900_000_000_000

abbrev pub max_retries : ℕ
max_retries = 5

-- The loop, with the rounds that are left, and the test behind it.
pub backoff_loop : ℕ → ℕ → ℕ
backoff_loop zero d = if ltb backoff_max d then backoff_max else d
backoff_loop (suc rounds) d =
    let rest = backoff_loop rounds (d * 2) in if leb backoff_max (d * 2) then backoff_max else rest

-- Backoff
unfoldable pub backoff : ℕ → ℕ
unfolding backoff_loop
backoff attempt = backoff_loop ((if ltb attempt 1 then 1 else attempt) - 1) backoff_base
