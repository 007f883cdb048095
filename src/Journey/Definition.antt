-- ===== src/Journey/Definition.antt =====
-- internal/journey/journey.go: the steps of a journey definition.
use osscdp.Prelude.{ℕ, String, Option, List, ℤ}
use osscdp.Segment.Rule.{Rule}

abbrev pub step_wait : String
step_wait = "wait"

abbrev pub step_send : String
step_send = "send"

abbrev pub step_condition : String
step_condition = "condition"

abbrev pub step_split : String
step_split = "split"

-- SplitBranch
pub record Branch : Type 0 where
  pub weight : ℤ
  pub next : ℤ

-- Step. A uuid.UUID is a number, and uuid.Nil is 0.
pub record Step : Type 0 where
  pub type_name : String
  pub duration : String
  pub destination_id : ℕ
  pub next : ℤ
  pub condition : Option Rule
  pub if_true : ℤ
  pub if_false : ℤ
  pub branches : List Branch
