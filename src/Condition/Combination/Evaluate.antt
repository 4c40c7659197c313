-- ===== src/Condition/Combination/Evaluate.antt =====
-- CombinationConditionTracker::evaluateCondition, over the trackers of its children, which are an
-- interface: what the evaluation of one child does to the two caches of an event.
use packages_modules_stats_d.Common.{
  ℕ, ◌<◌, ◌≡◌, ◌≢◌, refl, sym, subst, ap, ap₂, ◌∙◌, Bool, true, false, not, ◌||◌, List, [], ◌∷◌,
  map, length, set, get_or, if◌then◌else◌, if_both, arith, get_or-set_self, get_or-set_ne,
}
use packages_modules_stats_d.Condition.Util.{
  differs, ConditionState, not_evaluated, LogicalOperation, state_at, is_evaluated,
  evaluate_combination_condition, combine, negate_first, op_and, op_or, op_not, op_nand, op_nor,
  op_unspecified,
}
use packages_modules_stats_d.Condition.Util.Logic.{
  denote, Evaluated, evaluate_combination_condition-denote,
}
use packages_modules_stats_d.Condition.Simple.{Caches}

pub record CombinationConditionTracker : Type 0 where
  pub index : ℕ
  pub sliced : Bool
  pub logical_operation : LogicalOperation
  pub children : List ℕ
  pub un_sliced_children : List ℕ
  pub un_sliced_part_condition : ConditionState

abbrev any_changed : List Bool → List ℕ → Bool
any_changed changed [] = false
any_changed changed (child ∷ children) = get_or changed child false || any_changed changed children

-- mAllConditions: the evaluation of the tracker at an index that has no state yet gives it one, and
-- touches no state that is there.
pub record Children : Type 0 where
  pub evaluate : ℕ → Caches → Caches
  pub size : (i : ℕ) (c : Caches) → length (evaluate i c).condition ≡ length c.condition
  pub fills :
      (i : ℕ) (c : Caches)
      → i < length c.condition
      → is_evaluated (state_at (evaluate i c).condition i) ≡ true
  pub keeps :
      (i j : ℕ) (c : Caches)
      → is_evaluated (state_at c.condition i) ≡ false
      → is_evaluated (state_at c.condition j) ≡ true
      → state_at (evaluate i c).condition j ≡ state_at c.condition j

module _ (conditions : Children) where
  -- The loop over the children that are not evaluated.
  unfoldable pub evaluate_children : List ℕ → Caches → Caches
  evaluate_children [] c = c
  evaluate_children (child ∷ children) c =
      evaluate_children children
        (if is_evaluated (state_at c.condition child) then c else conditions.evaluate child c)

  unfoldable pub evaluate_condition :
      CombinationConditionTracker → Caches → CombinationConditionTracker × Caches
  unfolding evaluate_children
  evaluate_condition t c =
      let d = evaluate_children t.children c in
      let new_condition =
        evaluate_combination_condition t.children t.logical_operation d.condition in
      if is_evaluated (state_at c.condition t.index)
      then (t, c)
      else if not t.sliced
      then (
        record t { un_sliced_part_condition = new_condition },
        record {
          condition = set d.condition t.index new_condition;
          changed = set d.changed t.index (differs t.un_sliced_part_condition new_condition);
        },
      )
      else (
        record t {
          un_sliced_part_condition =
              evaluate_combination_condition t.un_sliced_children t.logical_operation d.condition;
        },
        record {
          condition = set d.condition t.index new_condition;
          changed =
              if any_changed d.changed t.children then set d.changed t.index true else d.changed;
        },
      )

  abbrev pub Within : ℕ → List ℕ → Type 0
  Within n [] = Unit
  Within n (child ∷ children) = (child < n) × Within n children

  abbrev pub Avoids : ℕ → List ℕ → Type 0
  Avoids i [] = Unit
  Avoids i (child ∷ children) = (i ≢ child) × Avoids i children

  next : ℕ → Caches → Caches
  next child c =
      if is_evaluated (state_at c.condition child) then c else conditions.evaluate child c

  next-size : (child : ℕ) (c : Caches) → length (next child c).condition ≡ length c.condition
  unfolding next
  next-size child c = ground (arith, conditions.size child c)

  next-fills :
      (child : ℕ) (c : Caches)
      → child < length c.condition
      → is_evaluated (state_at (next child c).condition child) ≡ true
  unfolding next
  next-fills child c h =
      if_both (λ (d : Caches). is_evaluated (state_at d.condition child) ≡ true)
        (is_evaluated (state_at c.condition child)) _ _ (λ e. e) (λ _. conditions.fills child c h)

  next-keeps :
      (child j : ℕ) (c : Caches)
      → is_evaluated (state_at c.condition j) ≡ true
      → state_at (next child c).condition j ≡ state_at c.condition j
  unfolding next
  next-keeps child j c h =
      if_both (λ (d : Caches). state_at d.condition j ≡ state_at c.condition j)
        (is_evaluated (state_at c.condition child)) _ _ (λ e. refl)
        (λ f. conditions.keeps child j c f h)

  pub evaluate_children-keeps :
      (children : List ℕ) (j : ℕ) (c : Caches)
      → is_evaluated (state_at c.condition j) ≡ true
      → state_at (evaluate_children children c).condition j ≡ state_at c.condition j
  unfolding evaluate_children next
  evaluate_children-keeps [] j c h = refl
  evaluate_children-keeps (child ∷ children) j c h =
      let e = next-keeps child j c h in
      evaluate_children-keeps children j (next child c) (ap is_evaluated e ∙ h) ∙ e

  pub evaluate_children-size :
      (children : List ℕ) (c : Caches)
      → length (evaluate_children children c).condition ≡ length c.condition
  unfolding evaluate_children next
  evaluate_children-size [] c = refl
  evaluate_children-size (child ∷ children) c =
      evaluate_children-size children (next child c) ∙ next-size child c

  evaluated_ne : (s : ConditionState) → is_evaluated s ≡ true → s ≡ not_evaluated → ⊥
  evaluated_ne s h e = ground arith

  evaluate_children-Evaluated :
      (children : List ℕ) (c : Caches)
      → Within (length c.condition) children
      → Evaluated (evaluate_children children c).condition children
  unfolding evaluate_children next
  evaluate_children-Evaluated [] c w = tt
  evaluate_children-Evaluated (child ∷ children) c w =
      let d = next child c in
      let filled = next-fills child c w.0 in
      (
        evaluated_ne _ (ap is_evaluated (evaluate_children-keeps children child d filled) ∙ filled),
        evaluate_children-Evaluated children d
            (subst (λ n. Within n children) (sym (next-size child c)) w.1),
      )

pub is_evaluated-evaluate_combination_condition :
    (children : List ℕ) (op : LogicalOperation) (cache : List ConditionState)
    → is_evaluated (evaluate_combination_condition children op cache) ≡ true
unfolding evaluate_combination_condition combine negate_first
is_evaluated-evaluate_combination_condition children op_and cache = ground arith
is_evaluated-evaluate_combination_condition children op_or cache = ground arith
is_evaluated-evaluate_combination_condition [] op_not cache = ground arith
is_evaluated-evaluate_combination_condition (child ∷ children) op_not cache = ground arith
is_evaluated-evaluate_combination_condition children op_nand cache = ground arith
is_evaluated-evaluate_combination_condition children op_nor cache = ground arith
is_evaluated-evaluate_combination_condition children op_unspecified cache = ground arith

module _ (conditions : Children) where
  map-state_at :
      (cache : List ConditionState) (i : ℕ) (s : ConditionState) (children : List ℕ)
      → Avoids conditions i children
      → map (state_at (set cache i s)) children ≡ map (state_at cache) children
  map-state_at cache i s [] a = refl
  map-state_at cache i s (child ∷ children) a =
      ap₂ (λ x xs. x ∷ xs) (get_or-set_ne cache i child s not_evaluated a.0)
        (map-state_at cache i s children a.1)

  written :
      (t : CombinationConditionTracker) (c : Caches)
      → is_evaluated (state_at c.condition t.index) ≡ false
      → let d = evaluate_children conditions t.children c in
        ((evaluate_condition conditions t c).1.condition
          ≡ set d.condition t.index
              (evaluate_combination_condition t.children t.logical_operation d.condition))
        × ((evaluate_condition conditions t c).0.index ≡ t.index)
  unfolding evaluate_condition
  written t c f = ground arith

  kept :
      (t : CombinationConditionTracker) (c : Caches)
      → is_evaluated (state_at c.condition t.index) ≡ true
      → evaluate_condition conditions t c ≡ (t, c)
  unfolding evaluate_condition
  kept t c h = rw h refl

  -- For a combination that has no state yet in the cache of an event, whose own index and whose
  -- children's are in the cache and which is not its own child: whichever children were evaluated before,
  -- its state in the cache is then the meaning of its operation on the children's states in the
  -- cache; and to evaluate it again changes nothing.
  pub evaluate_condition-denote :
      (t : CombinationConditionTracker) (c : Caches)
      → is_evaluated (state_at c.condition t.index) ≡ false
      → t.index < length c.condition
      → Within conditions (length c.condition) t.children
      → Avoids conditions t.index t.children
      → let (u, d) = evaluate_condition conditions t c in
        (state_at d.condition t.index
          ≡ denote t.logical_operation (map (state_at d.condition) t.children))
        × (evaluate_condition conditions u d ≡ (u, d))
  evaluate_condition-denote t c f inside within avoids =
      let d = evaluate_children conditions t.children c in
      let new = evaluate_combination_condition t.children t.logical_operation d.condition in
      let (u, after) = evaluate_condition conditions t c in
      let (w, same) = written t c f in
      let size = evaluate_children-size conditions t.children c in
      let own : state_at after.condition t.index ≡ new =
        ap (λ l. state_at l t.index) w
        ∙ get_or-set_self d.condition t.index new not_evaluated (omega (arith, size, inside)) in
      (
        own
            ∙ evaluate_combination_condition-denote t.logical_operation d.condition t.children
                (evaluate_children-Evaluated conditions t.children c within)
            ∙ ap (denote t.logical_operation) (
                sym (
                  ap (λ l. map (state_at l) t.children) w
                  ∙ map-state_at d.condition t.index new t.children avoids)),
        kept u after (
            ap (λ i. is_evaluated (state_at after.condition i)) same
            ∙ ap is_evaluated own
            ∙ is_evaluated-evaluate_combination_condition t.children t.logical_operation
                d.condition),
      )
