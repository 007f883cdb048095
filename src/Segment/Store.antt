-- ===== src/Segment/Store.antt =====
-- internal/behavior/spec.go and the interface BehaviorStore of internal/segment/eval.go: what a
-- rule asks of the stored events. The store itself is behind the interface.
use osscdp.Prelude.{ℕ, String, Bool, Option, none, some, List, Result, err}
use osscdp.Runtime.Float.{Float64}
use osscdp.Segment.Window.{WindowError}

-- The fields of a Spec but its `Anchor`.
pub record SpecFields : Type 0 where
  pub event_name : String
  pub window : ℕ
  pub op : String
  pub value : Float64
  pub value_prop : String
  pub within : ℕ
  pub steps : List String
  pub exact : Bool
  pub where_match : Option (String → Bool)
  pub drift_props : List String

mutual
  pub data Spec : Type 0 where
    spec : SpecFields → MaybeSpec → Spec

  pub data MaybeSpec : Type 0 where
    no_spec : MaybeSpec
    some_spec : Spec → MaybeSpec

-- What an evaluation can fail with: a window of the rule, a read of the store, or the panic of a call on
-- a nil store.
pub data EvalError : Type 0 where
  bad_window : WindowError → EvalError
  store_error : String → EvalError
  nil_store : EvalError

-- The arguments are the tenant, the profile, the predicate, and the instant. A context is left out.
pub record BehaviorStore : Type 0 where
  pub count : ℕ → ℕ → Spec → ℕ → Result EvalError ℕ
  pub recent : ℕ → ℕ → Spec → ℕ → Result EvalError Bool
  pub absent : ℕ → ℕ → Spec → ℕ → Result EvalError Bool
  pub correlated_absent : ℕ → ℕ → Spec → ℕ → Result EvalError Bool
  pub sequence : ℕ → ℕ → Spec → ℕ → Result EvalError Bool
  pub sum_value : ℕ → ℕ → Spec → ℕ → Result EvalError Float64
  -- tenant, profile, event name, instant; none where Go's `ok` is false
  pub last_at : ℕ → ℕ → String → ℕ → Result EvalError (Option ℕ)
  -- tenant, profile, event name, window, n, instant
  pub nth_newest_in_window : ℕ → ℕ → String → ℕ → ℕ → ℕ → Result EvalError (Option ℕ)

-- A nil interface: each call on it panics.
abbrev pub nil_reader : BehaviorStore
nil_reader = record {
  count = λ t p s i. err nil_store;
  recent = λ t p s i. err nil_store;
  absent = λ t p s i. err nil_store;
  correlated_absent = λ t p s i. err nil_store;
  sequence = λ t p s i. err nil_store;
  sum_value = λ t p s i. err nil_store;
  last_at = λ t p s i. err nil_store;
  nth_newest_in_window = λ t p s w n i. err nil_store;
}

-- A store as nextDueAt uses it, without a test for nil.
abbrev pub reader : Option BehaviorStore → BehaviorStore
reader none = nil_reader
reader (some s) = s
