-- ===== src/Condition/Combination/Tests.antt =====
-- A config of four predicates, and one with a cycle.
use packages_modules_stats_d.Common.{
  false, none, inr, map, arith, ℕ, ◌≡◌, refl, some, [], ◌∷◌, nat_eq,
}
use packages_modules_stats_d.Common.Dict.{get}
use packages_modules_stats_d.Condition.Combination.{
  ConditionsMap, simple, combination, is_tracker_valid, valid, invalid, condition_cycle,
}
use packages_modules_stats_d.Condition.Combination.Grounded.{Ends, is_tracker_valid-IsGrounded}
use packages_modules_stats_d.Condition.Util.{
  not_evaluated, is_false, is_true, unknown, op_and, op_nand, state_at,
}
use packages_modules_stats_d.Condition.Util.Logic.{denote}
use packages_modules_stats_d.Condition.Simple.{Caches, SimpleConditionTracker, matched, not_matched}
use packages_modules_stats_d.Condition.Simple.Events.{IsTracked}
use packages_modules_stats_d.Condition.Combination.Trackers.{simple_children}
use packages_modules_stats_d.Condition.Combination.Nested.{with_combination}
use packages_modules_stats_d.Condition.Combination.Evaluate.{
  Children, CombinationConditionTracker, evaluate_condition, evaluate_condition-denote,
}

abbrev screen_and_charging : ConditionsMap
screen_and_charging =
    (1, some simple)
    ∷ (2, some simple)
    ∷ (3, some (combination (1 ∷ 2 ∷ [])))
    ∷ (4, some (combination (3 ∷ 1 ∷ [])))
    ∷ []

abbrev cyclic : ConditionsMap
cyclic =
    (1, some simple) ∷ (3, some (combination (1 ∷ 4 ∷ []))) ∷ (4, some (combination (3 ∷ []))) ∷ []

tree_is_valid : is_tracker_valid 5 screen_and_charging 4 [] ≡ valid []
unfolding is_tracker_valid get
tree_is_valid = refl

cycle_is_found : is_tracker_valid 4 cyclic 3 [] ≡ invalid condition_cycle (4 ∷ 3 ∷ [])
unfolding is_tracker_valid get
cycle_is_found = refl

is_tracker_valid_example :
    Ends screen_and_charging 4 [] (is_tracker_valid 5 screen_and_charging 4 [])
is_tracker_valid_example =
    is_tracker_valid-IsGrounded screen_and_charging 4 (combination (3 ∷ 1 ∷ []))
      (unfold get in refl)

-- Simple trackers that matcher 0 starts and matcher 1 stops, unknown before.
abbrev simple_at : ℕ → SimpleConditionTracker ℕ
simple_at i = record {
  condition_id = i;
  index = i;
  sliced = false;
  count_nesting = false;
  start_index = some 0;
  stop_index = some 1;
  stop_all_index = none;
  initial_value = unknown;
  has_output_dimensions = false;
  contains_any_position = false;
  last_changed_to_true = [];
  last_changed_to_false = [];
  sliced_condition_state = [];
}

simple_at-IsTracked : (i : ℕ) → IsTracked (simple_at i)
unfolding get
simple_at-IsTracked i = record { initial = inr refl; started = λ h. ground arith }

-- An event that matcher 0 matches.
abbrev simple_ones : Children
simple_ones =
    simple_children 0 (λ k j. nat_eq.beq k j) simple_at 0 (matched ∷ not_matched ∷ []) (λ i. refl)
      simple_at-IsTracked

abbrev both : CombinationConditionTracker
both = record {
  index = 2;
  sliced = false;
  logical_operation = op_and;
  children = 0 ∷ 1 ∷ [];
  un_sliced_children = 0 ∷ 1 ∷ [];
  un_sliced_part_condition = is_true;
}

abbrev with_both : Children
with_both = with_combination simple_ones both

-- A combination of that one and of the first simple tracker.
abbrev either : CombinationConditionTracker
either = record {
  index = 3;
  sliced = false;
  logical_operation = op_nand;
  children = 2 ∷ 0 ∷ [];
  un_sliced_children = 2 ∷ 0 ∷ [];
  un_sliced_part_condition = is_true;
}

-- The second child of `both` is false already.
abbrev caches : Caches
caches = record {
  condition = not_evaluated ∷ is_false ∷ not_evaluated ∷ not_evaluated ∷ [];
  changed = false ∷ false ∷ false ∷ false ∷ [];
}

evaluate_condition_example :
    (state_at (evaluate_condition with_both either caches).1.condition 3
      ≡ denote op_nand
          (map (state_at (evaluate_condition with_both either caches).1.condition) (2 ∷ 0 ∷ [])))
    × (evaluate_condition with_both
          (evaluate_condition with_both either caches).0
          (evaluate_condition with_both either caches).1
        ≡ evaluate_condition with_both either caches)
evaluate_condition_example =
    evaluate_condition-denote with_both either caches refl (omega arith)
      (omega arith, (omega arith, tt)) ((λ e. ground arith), ((λ e. ground arith), tt))
