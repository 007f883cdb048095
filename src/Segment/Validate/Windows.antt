-- ===== src/Segment/Validate/Windows.antt =====
-- The windows of a behavior that validation has parsed.
use osscdp.Prelude.{◌≡◌, ◌==◌, true, arith, is_ok, if◌then◌else◌, eq-other}
use osscdp.Runtime.{Runtime}
use osscdp.Segment.Rule.{
  BehaviorFields, Behaviors, behavior_sequence, behavior_count, behavior_frequency,
  behavior_recency, behavior_absence,
}
use osscdp.Segment.Window.{parse_window}
use osscdp.Segment.Validate.{check_kind, is_kind}

-- The window that toSpec parses is the one that validateBehavior has parsed.
pub check_kind-window :
    (rt : Runtime) (f : BehaviorFields) (st : Behaviors)
    → is_kind f.kind ≡ true
    → is_ok (check_kind rt f st) ≡ true
    → is_ok (parse_window rt (if f.kind == behavior_sequence then f.within else f.window)) ≡ true
unfolding check_kind
check_kind-window rt f st k h = ground (
  arith,
  eq-other f.kind behavior_count behavior_sequence,
  eq-other f.kind behavior_frequency behavior_sequence,
  eq-other f.kind behavior_recency behavior_sequence,
  eq-other f.kind behavior_absence behavior_sequence,
)
