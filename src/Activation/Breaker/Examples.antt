-- ===== src/Activation/Breaker/Examples.antt =====
-- A concrete breaker: three failures within a minute open it for half a minute.
use osscdp.Prelude.{◌≤◌, ◌≡◌, refl, true, false, [], ◌∷◌, arith}
use osscdp.Activation.Breaker.{Config, BkState, record_failure}
use osscdp.Activation.Breaker.Opens.{record_failures, closed_with, open_since, opens_at_threshold}
use osscdp.Activation.Breaker.Trial.{allowed, allowed-le-one}

abbrev config : Config
config = record { threshold = 3; window = 60; cooldown = 30 }

abbrev opened : BkState
opened = record { failures = []; opened_at = 30; is_open = true; half_open = false }

opens_at_threshold_example :
    (record_failures config (10 ∷ 20 ∷ []) (closed_with [] 5) ≡ closed_with (10 ∷ 20 ∷ []) 5)
    × (record_failure config 30 (record_failures config (10 ∷ 20 ∷ []) (closed_with [] 5))
        ≡ open_since 30)
opens_at_threshold_example =
    opens_at_threshold config 10 (10 ∷ 20 ∷ []) 30 5
      ((omega arith, omega arith), ((omega arith, omega arith), tt)) (omega arith, omega arith)
      (omega arith)

allowed-le-one_example : allowed config (31 ∷ 60 ∷ 61 ∷ []) opened ≤ 1
allowed-le-one_example = allowed-le-one config (31 ∷ 60 ∷ 61 ∷ []) opened refl
