-- ===== src/Activation/Breaker.antt =====
-- internal/activation/breaker.go. A mutex makes each method one step; the clock is an argument. The
-- map of states is a function, at a key that it does not hold yet the zero state that `state` makes.
pub mod Opens
pub mod Trial
pub mod Examples
use osscdp.Prelude.{
  ℕ, ◌+◌, ◌-◌, Bool, true, false, not, ◌&&◌, List, [], ◌∷◌, ◌++◌, length, ltb, leb, eqb,
  if◌then◌else◌,
}

pub record Config : Type 0 where
  pub threshold : ℕ
  pub window : ℕ
  pub cooldown : ℕ

-- bkState
pub record BkState : Type 0 where
  pub failures : List ℕ
  pub opened_at : ℕ
  pub is_open : Bool
  pub half_open : Bool

abbrev pub zero_state : BkState
zero_state = record { failures = []; opened_at = 0; is_open = false; half_open = false }

abbrev pub Breaker : Type 0
Breaker = ℕ → BkState

abbrev pub store_state : Breaker → ℕ → BkState → Breaker
store_state b id s i = if eqb i id then s else b i

-- Allow at one destination.
unfoldable pub allow_state : Config → ℕ → BkState → BkState × Bool
allow_state c now s =
    if not s.is_open
    then (s, true)
    else if leb c.cooldown (now - s.opened_at)
    then (if s.half_open then (s, false) else (record s { half_open = true }, true))
    else (s, false)

-- The failures after the cutoff `now - window`.
pub kept_failures : Config → ℕ → List ℕ → List ℕ
kept_failures c now [] = []
kept_failures c now (t ∷ ts) =
    let rest = kept_failures c now ts in if ltb now (t + c.window) then t ∷ rest else rest

-- Record of a success.
abbrev pub record_success : BkState → BkState
record_success s = record s { is_open = false; half_open = false; failures = [] }

-- Record of a failure.
unfoldable pub record_failure : Config → ℕ → BkState → BkState
unfolding kept_failures
record_failure c now s =
    if s.half_open
    then record s { opened_at = now; half_open = false; failures = [] }
    else (let failures = kept_failures c now s.failures ++ now ∷ [] in
        if leb c.threshold (length failures)
        then record s { is_open = true; opened_at = now; failures = [] }
        else record s { failures = failures })

unfoldable pub record_state : Config → ℕ → Bool → BkState → BkState
unfolding record_failure
record_state c now success s = if success then record_success s else record_failure c now s

-- Allow and Record
unfoldable pub allow : Config → ℕ → ℕ → Breaker → Breaker × Bool
unfolding allow_state
allow c now id b = let (s, yes_go) = allow_state c now (b id) in (store_state b id s, yes_go)

unfoldable pub record_outcome : Config → ℕ → ℕ → Bool → Breaker → Breaker
unfolding record_state
record_outcome c now id success b = store_state b id (record_state c now success (b id))
