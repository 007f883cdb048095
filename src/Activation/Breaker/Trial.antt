-- ===== src/Activation/Breaker/Trial.antt =====
-- The trial of an open breaker.
use osscdp.Prelude.{ℕ, suc, ◌≤◌, ◌≡◌, refl, true, List, [], ◌∷◌, arith, if◌then◌else◌}
use osscdp.Activation.Breaker.{Config, BkState, allow_state}

-- How many of the calls of Allow at these times, with no Record between them, return true.
pub allowed : Config → List ℕ → BkState → ℕ
allowed c [] s = 0
allowed c (now ∷ times) s =
    let (s', yes_go) = allow_state c now s in
    let n = allowed c times s' in if yes_go then suc n else n

allowed-trial :
    (c : Config) (times : List ℕ) (s : BkState)
    → s.is_open ≡ true
    → s.half_open ≡ true
    → allowed c times s ≡ 0
unfolding allowed allow_state
allowed-trial c [] s h k = refl
allowed-trial c (t ∷ times) s h k = ground (arith, allowed-trial c times s)

-- While an open breaker waits for a Record, Allow lets one send through at most, whatever the times.
pub allowed-le-one :
    (c : Config) (times : List ℕ) (s : BkState) → s.is_open ≡ true → allowed c times s ≤ 1
unfolding allowed allow_state
allowed-le-one c [] s h = omega arith
allowed-le-one c (t ∷ times) s h = ground (
  arith,
  allowed-le-one c times s,
  allowed-trial c times s,
  allowed-trial c times (record s { half_open = true }),
)
