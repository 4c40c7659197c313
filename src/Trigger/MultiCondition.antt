-- ===== src/Trigger/MultiCondition.antt =====
-- MultiConditionTrigger: a trigger that runs once, when every named condition is complete. The calls
-- hold a lock, so they are a sequence; `started` counts the starts of the executor thread.
use packages_modules_stats_d.Common.{
  ℕ, suc, ◌≡◌, refl, ◌∙◌, Bool, true, false, ◌&&◌, ◌||◌, List, [], ◌∷◌, arith, if◌then◌else◌, Eq,
}

-- std::set::erase and ::empty
module _ {S : Type 0} ⦃e : Eq S⦄ where
  unfoldable pub erase_name : List S → S → List S
  erase_name [] name = []
  erase_name (n ∷ names) name =
      let rest = erase_name names name in if e.beq n name then rest else n ∷ rest

abbrev pub is_empty {ℓ} : {A : Type ℓ} → List A → Bool
is_empty [] = true
is_empty (x ∷ xs) = false

pub record MultiConditionTrigger (S : Type 0) : Type 0 where
  pub remaining_condition_names : List S
  pub completed : Bool
  pub started : ℕ

abbrev pub start_executor_thread : {S : Type 0} → MultiConditionTrigger S → MultiConditionTrigger S
start_executor_thread t = record t { started = suc t.started }

unfoldable pub init : {S : Type 0} → List S → MultiConditionTrigger S
init condition_names =
    let t : MultiConditionTrigger _ = record {
      remaining_condition_names = condition_names;
      completed = is_empty condition_names;
      started = 0;
    } in
    if t.completed then start_executor_thread t else t

module _ {S : Type 0} ⦃e : Eq S⦄ where
  unfoldable pub mark_complete : S → MultiConditionTrigger S → MultiConditionTrigger S
  unfolding erase_name
  mark_complete condition_name t =
      let rest = erase_name t.remaining_condition_names condition_name in
      let u = record t { remaining_condition_names = rest; completed = is_empty rest } in
      if t.completed then t else if u.completed then start_executor_thread u else u

  unfoldable pub mark_all : List S → MultiConditionTrigger S → MultiConditionTrigger S
  unfolding mark_complete
  mark_all [] t = t
  mark_all (name ∷ names) t = mark_all names (mark_complete name t)

  unfoldable pub is_marked : List S → S → Bool
  is_marked [] name = false
  is_marked (n ∷ names) name = e.beq name n || is_marked names name

  unfoldable pub are_marked : List S → List S → Bool
  unfolding is_marked
  are_marked [] marks = true
  are_marked (name ∷ names) marks = is_marked marks name && are_marked names marks

  -- A first call leaves the names that it does not mark.
  are_marked-erase_name :
      (names marks : List S) (name : S)
      → are_marked (erase_name names name) marks ≡ are_marked names (name ∷ marks)
  unfolding are_marked erase_name is_marked
  are_marked-erase_name [] marks name = refl
  are_marked-erase_name (n ∷ names) marks name =
      ground (arith, are_marked-erase_name names marks name)

  mark_all-completed :
      (marks names : List S) (k : ℕ)
      → (mark_all marks
          (record { remaining_condition_names = names; completed = true; started = k })).started
        ≡ k
  unfolding mark_all mark_complete
  mark_all-completed [] names k = refl
  mark_all-completed (name ∷ marks) names k = mark_all-completed marks names k

  abbrev waiting : List S → ℕ → MultiConditionTrigger S
  waiting names k = record {
    remaining_condition_names = names;
    completed = is_empty names;
    started = k;
  }

  mark_all-started :
      (marks names : List S) (k : ℕ)
      → (mark_all marks (
          if is_empty names
          then start_executor_thread (waiting names k)
          else waiting names k)).started
        ≡ (if are_marked names marks then suc k else k)
  unfolding mark_all mark_complete
  mark_all-started marks [] k = unfold are_marked in mark_all-completed marks [] (suc k)
  mark_all-started [] (n ∷ names) k = unfold are_marked is_marked in refl
  mark_all-started (name ∷ marks) (n ∷ names) k =
      mark_all-started marks (erase_name (n ∷ names) name) k
      ∙ rw (are_marked-erase_name (n ∷ names) marks name) refl

  -- For any names and any sequence of calls of markComplete, repeated and unknown names included: the
  -- executor thread is started exactly once if every name is among the calls, and never otherwise.
  pub mark_all-init :
      (names marks : List S)
      → (mark_all marks (init names)).started ≡ (if are_marked names marks then 1 else 0)
  unfolding init
  mark_all-init names marks = mark_all-started marks names 0
