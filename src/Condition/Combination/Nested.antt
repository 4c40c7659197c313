-- ===== src/Condition/Combination/Nested.antt =====
-- A combination added to the trackers of a config, after its children, so that it can be a child of
-- others.
use packages_modules_stats_d.Common.{
  ℕ, ◌≡◌, ◌<◌, subst, true, false, length, arith, nat_eq, ◌==◌, if◌then◌else◌, get_or-set_self,
  get_or-set_ne, length-set, Bool-cases, inl, inr,
}
use packages_modules_stats_d.Condition.Util.{
  not_evaluated, is_evaluated, state_at, evaluate_combination_condition,
}
use packages_modules_stats_d.Condition.Simple.{Caches}
use packages_modules_stats_d.Condition.Combination.Evaluate.{
  Children, CombinationConditionTracker, evaluate_condition, evaluate_children,
  evaluate_children-keeps, evaluate_children-size, is_evaluated-evaluate_combination_condition,
}
use packages_modules_stats_d.Condition.Combination.Trackers.{evaluated_apart}

module _ (conditions : Children) (t : CombinationConditionTracker) where
  combination_size :
      (c : Caches) → length (evaluate_condition conditions t c).1.condition ≡ length c.condition
  unfolding evaluate_condition
  combination_size c =
      let size = evaluate_children-size conditions t.children c in
      let d = evaluate_children conditions t.children c in
      let new = evaluate_combination_condition t.children t.logical_operation d.condition in
      ground (arith, size, length-set d.condition t.index new)

  combination_fills :
      (c : Caches)
      → t.index < length c.condition
      → is_evaluated (state_at (evaluate_condition conditions t c).1.condition t.index) ≡ true
  unfolding evaluate_condition
  combination_fills c inside =
      let size = evaluate_children-size conditions t.children c in
      let d = evaluate_children conditions t.children c in
      let new = evaluate_combination_condition t.children t.logical_operation d.condition in
      ground (
        arith,
        size,
        get_or-set_self d.condition t.index new not_evaluated,
        is_evaluated-evaluate_combination_condition t.children t.logical_operation d.condition,
      )

  combination_keeps :
      (j : ℕ) (c : Caches)
      → is_evaluated (state_at c.condition t.index) ≡ false
      → is_evaluated (state_at c.condition j) ≡ true
      → state_at (evaluate_condition conditions t c).1.condition j ≡ state_at c.condition j
  unfolding evaluate_condition
  combination_keeps j c f h =
      let d = evaluate_children conditions t.children c in
      let new = evaluate_combination_condition t.children t.logical_operation d.condition in
      ground (
        arith,
        evaluate_children-keeps conditions t.children j c h,
        get_or-set_ne d.condition t.index j new not_evaluated
            (evaluated_apart t.index j c.condition f h),
      )

  -- The trackers so far, with a combination of them at its own index.
  pub with_combination : Children
  with_combination = record {
    evaluate = evaluate;
    size = λ i c. elim (Bool-cases (t.index == i)) [
      | inl h ↦ rw h (combination_size c)
      | inr h ↦ rw h (conditions.size i c)
    ];
    fills = λ i c inside. elim (Bool-cases (t.index == i)) [
      | inl h ↦
          let same : t.index ≡ i = ground arith in
          rw h (
            subst
              (λ k.
                is_evaluated (state_at (evaluate_condition conditions t c).1.condition k) ≡ true)
              same (combination_fills c (omega (arith, same, inside))))
      | inr h ↦ rw h (conditions.fills i c inside)
    ];
    keeps = λ i j c f g. elim (Bool-cases (t.index == i)) [
      | inl h ↦
          let same : i ≡ t.index = ground arith in
          rw h (
            combination_keeps j c
              (subst (λ k. is_evaluated (state_at c.condition k) ≡ false) same f) g)
      | inr h ↦ rw h (conditions.keeps i j c f g)
    ];
  }
    where
      evaluate : ℕ → Caches → Caches
      evaluate i c =
          if t.index == i then (evaluate_condition conditions t c).1 else conditions.evaluate i c
