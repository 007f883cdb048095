-- ===== src/Segment/Evaluate/Examples.antt =====
-- Evaluations of concrete rules.
use osscdp.Prelude.{◌≡◌, refl, Bool, true, none, some, ok, is_ok, cut_prefix}
use osscdp.Segment.Rule.{Rule}
use osscdp.Segment.Window.{parse_window}
use osscdp.Segment.Leaf.{leaf_holds}
use osscdp.Segment.Validate.{validate}
use osscdp.Segment.Evaluate.{has_behavior, evaluate}
use osscdp.Segment.Evaluate.Stateless.{holds, evaluate-stateless}
use osscdp.Segment.Evaluate.NilStore.{evaluate-nil_store_ok, evaluate-nil_store_sound}
use osscdp.Segment.Evaluate.Total.{Answers, evaluate-valid_ok}
use osscdp.Samples.{
  sample_runtime, sample_store, sample_context, compare_user, behavioral, leaf_of, pair_of,
}

abbrev either_user : Rule
either_user = pair_of "or" (compare_user "eq" "u2") (compare_user "neq" "u3")

abbrev user_and_logins : Rule
user_and_logins = pair_of "and" (compare_user "eq" "u1") (leaf_of (behavioral "count" "30d"))

abbrev user_or_logins : Rule
user_or_logins = pair_of "or" (leaf_of (behavioral "recency" "7d")) (compare_user "eq" "u1")

evaluate-stateless_example :
    evaluate sample_runtime 5 (some sample_store) sample_context either_user
    ≡ ok (holds sample_runtime sample_context either_user)
unfolding has_behavior
evaluate-stateless_example =
    evaluate-stateless sample_runtime 5 (some sample_store) sample_context either_user refl

evaluate-nil_store_ok_example :
    is_ok (evaluate sample_runtime 5 none sample_context user_and_logins) ≡ true
evaluate-nil_store_ok_example =
    evaluate-nil_store_ok sample_runtime 5 sample_context user_and_logins

evaluate-nil_store_sound_example : ◌≡◌ {A = Bool} true true
unfolding evaluate leaf_holds cut_prefix parse_window
evaluate-nil_store_sound_example =
    evaluate-nil_store_sound sample_runtime 5 sample_context user_or_logins sample_store true refl
      refl

abbrev sample_answers : Answers sample_store
sample_answers = record {
  count = λ t p sp at. refl;
  recent = λ t p sp at. refl;
  absent = λ t p sp at. refl;
  correlated_absent = λ t p sp at. refl;
  sequence = λ t p sp at. refl;
  sum_value = λ t p sp at. refl;
}

evaluate-valid_ok_example :
    is_ok (evaluate sample_runtime 5 (some sample_store) sample_context user_and_logins) ≡ true
unfolding validate parse_window
evaluate-valid_ok_example =
    evaluate-valid_ok sample_runtime 5 sample_store sample_context user_and_logins sample_answers
      refl
