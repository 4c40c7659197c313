-- ===== src/Condition/Util/Tests.antt =====
-- The combination at concrete inputs.
use packages_modules_stats_d.Common.{◌≡◌, refl, List, [], ◌∷◌}
use packages_modules_stats_d.Condition.Util.{
  ConditionState, not_evaluated, unknown, is_false, is_true, op_and, op_or, op_not,
  evaluate_combination_condition,
}
use packages_modules_stats_d.Condition.Util.Logic.{denote, evaluate_combination_condition-denote}

abbrev cache : List ConditionState
cache = is_true ∷ is_false ∷ unknown ∷ not_evaluated ∷ []

or_known : evaluate_combination_condition (1 ∷ 0 ∷ []) op_or cache ≡ is_true
unfolding evaluate_combination_condition
or_known = refl

or_unknown : evaluate_combination_condition (0 ∷ 2 ∷ []) op_or cache ≡ unknown
unfolding evaluate_combination_condition
or_unknown = refl

not_of_none : evaluate_combination_condition [] op_not cache ≡ unknown
unfolding evaluate_combination_condition
not_of_none = refl

evaluate_combination_condition_example :
    evaluate_combination_condition (0 ∷ 1 ∷ []) op_and cache
    ≡ denote op_and (is_true ∷ is_false ∷ [])
evaluate_combination_condition_example =
    evaluate_combination_condition-denote op_and cache (0 ∷ 1 ∷ []) ((λ e. cc), ((λ e. cc), tt))
