-- ===== src/Segment/Analyze.antt =====
-- internal/segment/dsl.go: `analyzeRule` and `AnalyzeRule`, the metadata of a segment version.
use osscdp.Prelude.{
  ℕ, String, ◌==◌, Bool, true, false, ◌||◌, List, [], ◌∷◌, ltb, if◌then◌else◌, is_empty, ok, err,
}
use osscdp.Runtime.{Runtime}
use osscdp.Segment.Rule.{
  BehaviorFields, Rule, rule, Rules, no_rules, rule_cons, Behavior, behavior, Behaviors,
  no_behaviors, behavior_cons, MaybeBehavior, no_behavior, some_behavior, is_logical,
}
use osscdp.Segment.Window.{parse_window}

-- The variables of analyzeRule. `names` is the set `seen`.
pub record Analysis : Type 0 where
  pub is_stateful : Bool
  pub has_stateless : Bool
  pub names : List String
  pub max_window : ℕ

abbrev pub start : Analysis
start = record { is_stateful = false; has_stateless = false; names = []; max_window = 0 }

unfoldable pub has_name : String → List String → Bool
has_name s [] = false
has_name s (n ∷ ns) = s == n || has_name s ns

-- `if name != "" { seen[name] = true }`
see_name : String → List String → List String
unfolding has_name
see_name s names = if is_empty s || has_name s names then names else s ∷ names

module _ (rt : Runtime) where
  -- `if w, err := ParseWindow(s); err == nil && w > *maxWindow`
  widen : String → ℕ → ℕ
  widen s w = elim (parse_window rt s) [ ok d ↦ if ltb w d then d else w | err e ↦ w ]

  -- The name and the windows of one behavior.
  collect_fields : BehaviorFields → Analysis → Analysis
  unfolding see_name widen
  collect_fields f a =
      let w = widen f.window a.max_window in
      record a {
        names = see_name f.event_name a.names;
        max_window = if is_empty f.within then w else widen f.within w;
      }

  -- collectBehaviorMeta
  unfoldable mutual
    unfolding collect_fields

    pub collect_behavior : Behavior → Analysis → Analysis
    collect_behavior (behavior f where_rule steps anchor) a =
        collect_steps steps (collect_anchor anchor (collect_fields f a))

    pub collect_anchor : MaybeBehavior → Analysis → Analysis
    collect_anchor no_behavior a = a
    collect_anchor (some_behavior b) a = collect_behavior b a

    pub collect_steps : Behaviors → Analysis → Analysis
    collect_steps no_behaviors a = a
    collect_steps (behavior_cons b bs) a = collect_steps bs (collect_behavior b a)

  -- The closure `walk`.
  unfoldable mutual
    unfolding collect_behavior

    pub analyze_walk : Rule → Analysis → Analysis
    analyze_walk (rule f conditions (some_behavior b)) a =
        collect_behavior b (record a { is_stateful = true })
    analyze_walk (rule f conditions no_behavior) a =
        if is_logical f
        then analyze_all conditions a
        else if is_empty f.field
        then a
        else record a { has_stateless = true }

    pub analyze_all : Rules → Analysis → Analysis
    analyze_all no_rules a = a
    analyze_all (rule_cons r rs) a = analyze_all rs (analyze_walk r a)

  -- analyzeRule, but for the order of the names: `sort.Strings` orders the set.
  unfoldable pub analyze_rule : Rule → Analysis
  unfolding analyze_walk
  analyze_rule r = analyze_walk r start
