-- ===== src/Segment/DueAt.antt =====
-- internal/segment/dueat.go: the next instant at which a rule may change by elapse alone.
pub mod Deadline
pub mod Examples
use osscdp.Prelude.{
  ℕ, ◌+◌, ◌%◌, String, ◌==◌, Bool, true, false, not, ◌&&◌, ◌||◌, Option, none, some, List, [], ◌∷◌,
  ltb, if◌then◌else◌, has_prefix, Result, ok, err, ◌>>=◌,
}
use osscdp.Runtime.{Runtime}
use osscdp.Runtime.Float.{Float64}
use osscdp.Segment.Rule.{
  op_gt, op_gte, op_lt, op_lte, op_eq, behavior_count, behavior_recency, behavior_absence,
  BehaviorFields, Rule, rule, Rules, no_rules, rule_cons, Behavior, behavior, MaybeBehavior,
  no_behavior, some_behavior, event_name,
}
use osscdp.Segment.Window.{is_positive, int64_mod}
use osscdp.Segment.Store.{EvalError, BehaviorStore}
use osscdp.Segment.Leaf.{EvalContext}
use osscdp.Segment.Evaluate.{spec_window}

-- `last.Add(w)`, where there is an instant
abbrev add_window : ℕ → Option ℕ → Option ℕ
add_window w none = none
add_window w (some t) = some (t + w)

abbrev is_before_best : ℕ → Option ℕ → Bool
is_before_best due none = true
is_before_best due (some best) = ltb due best

-- `if ok && due.After(at) && (!found || due.Before(best)) { best, found = due, true }`
unfoldable pub earlier : ℕ → Option ℕ → Option ℕ → Option ℕ
earlier at best none = best
earlier at best (some due) = if ltb at due && is_before_best due best then some due else best

-- `b.Anchor.EventName` of a correlated absence, and `b.EventName` of a plain one.
watched_name : BehaviorFields → MaybeBehavior → String
watched_name f no_behavior = f.event_name
watched_name f (some_behavior a) = event_name a

-- The boundary indices of a count, none for an operator that is no count operator.
boundaries : String → ℕ → Option (List ℕ)
boundaries op k =
    let above = (k + 1) % int64_mod in
    if op == op_gte || op == op_lt
    then some (k ∷ [])
    else if op == op_gt || op == op_lte
    then some (above ∷ [])
    else if op == op_eq
    then some (above ∷ k ∷ [])
    else none

module _ (rt : Runtime) (at : ℕ) (store : BehaviorStore) (ec : EvalContext) where
  last_due : String → String → Result EvalError (Option ℕ)
  last_due window name = do
    w ← spec_window rt window
    last ← store.last_at ec.profile.tenant_id ec.profile.id name at
    ok (add_window w last)

  -- `for _, idx := range indices`
  earliest_boundary : String → ℕ → Option ℕ → List ℕ → Result EvalError (Option ℕ)
  unfolding earlier
  earliest_boundary name w best [] = ok best
  earliest_boundary name w best (idx ∷ indices) = do
    nth ← store.nth_newest_in_window ec.profile.tenant_id ec.profile.id name w idx at
    earliest_boundary name w (earlier at best (add_window w nth)) indices

  boundary_due : BehaviorFields → ℕ → Option (List ℕ) → Result EvalError (Option ℕ)
  unfolding earliest_boundary
  boundary_due f w none = ok none
  boundary_due f w (some indices) = earliest_boundary f.event_name w none indices

  count_due : BehaviorFields → Option Float64 → Result EvalError (Option ℕ)
  unfolding boundary_due boundaries
  count_due f none = ok none
  count_due f (some value) = do
    w ← spec_window rt f.window
    let k = rt.int_of_float value
    (if is_positive k then boundary_due f w (boundaries f.op k) else ok none)

  -- leafDueAt: none where Go returns ok=false.
  unfoldable pub leaf_due_at : Behavior → Result EvalError (Option ℕ)
  unfolding last_due count_due watched_name
  leaf_due_at (behavior f where_rule steps anchor) =
      if f.kind == behavior_absence
      then last_due f.window (watched_name f anchor)
      else if f.kind == behavior_recency
      then last_due f.window f.event_name
      else if f.kind == behavior_count
      then count_due f f.value
      else ok none

  -- The closure `walk`, with `best` and `found` as its argument and its result.
  unfoldable mutual
    pub due_walk : Option ℕ → Rule → Result EvalError (Option ℕ)
    due_walk best (rule f conditions (some_behavior b)) = do
      due ← leaf_due_at b
      ok (earlier at best due)
    due_walk best (rule f conditions no_behavior) = due_walk_all best conditions

    pub due_walk_all : Option ℕ → Rules → Result EvalError (Option ℕ)
    due_walk_all best no_rules = ok best
    due_walk_all best (rule_cons r rs) = do best' ← due_walk best r; due_walk_all best' rs

  -- nextDueAt
  unfoldable pub next_due_at : Rule → Result EvalError (Option ℕ)
  next_due_at r = due_walk none r

-- referencesEvent
unfoldable mutual
  pub references_event : Rule → Bool
  references_event (rule f conditions (some_behavior b)) = false
  references_event (rule f conditions no_behavior) =
      has_prefix f.field "event." || any_references_event conditions

  pub any_references_event : Rules → Bool
  any_references_event no_rules = false
  any_references_event (rule_cons r rs) = references_event r || any_references_event rs
