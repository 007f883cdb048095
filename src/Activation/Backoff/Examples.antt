-- ===== src/Activation/Backoff/Examples.antt =====
-- A concrete delay.
use Prim.Native.Nat.{min}
use osscdp.Prelude.{◌*◌, ◌^◌, ◌≡◌}
use osscdp.Activation.Backoff.{backoff_base, backoff_max, backoff}
use osscdp.Activation.Backoff.Closed.{backoff-min}

backoff-min_example : backoff 4 ≡ min backoff_max (backoff_base * 2 ^ 3)
backoff-min_example = backoff-min 4
