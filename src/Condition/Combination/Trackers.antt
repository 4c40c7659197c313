-- ===== src/Condition/Combination/Trackers.antt =====
-- The simple trackers of a config, of SimpleConditionTracker.cpp, as children of combinations. A tracker
-- is evaluated once for an event: a second call finds its state in the cache. So what it becomes
-- itself is not seen in the same event.
use packages_modules_stats_d.Common.{
  ℕ, ◌≡◌, ◌<◌, refl, sym, subst, ap, ◌∙◌, Bool, true, false, List, length, set, if_both, arith, Eq,
  nat_eq, get_or-set_self, get_or-set_ne, length-set, Bool-cases, inl, inr, Option-cases, ◌≢◌, not,
  [],
}
use packages_modules_stats_d.Condition.Util.{
  is_false, ConditionState, not_evaluated, is_evaluated, state_at,
}
use packages_modules_stats_d.Condition.Simple.{
  SimpleConditionTracker, Caches, MatchingState, handle_condition_event, hit_guard_rail,
  new_key_event, start_event, stop_event, handle_stop_all,
}
use packages_modules_stats_d.Condition.Simple.Events.{IsTracked}
use packages_modules_stats_d.Condition.Simple.Evaluate
use packages_modules_stats_d.Condition.Simple.Evaluate.{
  matched_event, matched_state, is_matched, current_state, write,
}
use packages_modules_stats_d.Condition.Combination.Evaluate.{Children}

-- An evaluation gave the tracker at `i` a state, and touched no other.
record IsWritten (i : ℕ) (c d : Caches) : Type 0 where
  state : ConditionState
  evaluated : is_evaluated state ≡ true
  written : d.condition ≡ set c.condition i state

written-size : (i : ℕ) (c d : Caches) → IsWritten i c d → length d.condition ≡ length c.condition
written-size i c d w = ap length w.written ∙ length-set c.condition i w.state

written-fills :
    (i : ℕ) (c d : Caches)
    → IsWritten i c d
    → i < length c.condition
    → is_evaluated (state_at d.condition i) ≡ true
written-fills i c d w h =
    ap (λ l. is_evaluated (state_at l i)) w.written
    ∙ ap is_evaluated (get_or-set_self c.condition i w.state not_evaluated h)
    ∙ w.evaluated

pub evaluated_apart :
    (i j : ℕ) (l : List ConditionState)
    → is_evaluated (state_at l i) ≡ false
    → is_evaluated (state_at l j) ≡ true
    → i ≢ j
evaluated_apart i j l f h e =
    true_ne_false (sym h ∙ subst (λ k. is_evaluated (state_at l k) ≡ false) e f)
  where
    true_ne_false : true ≡ false → ⊥
    true_ne_false e = ground arith

written-keeps :
    (i j : ℕ) (c d : Caches)
    → IsWritten i c d
    → is_evaluated (state_at c.condition i) ≡ false
    → is_evaluated (state_at c.condition j) ≡ true
    → state_at d.condition j ≡ state_at c.condition j
written-keeps i j c d w f h =
    ap (λ l. state_at l j) w.written
    ∙ get_or-set_ne c.condition i j w.state not_evaluated (evaluated_apart i j c.condition f h)

module _ {K : Type 0} ⦃e : Eq K⦄ (default_key : K) (contains : K → K → Bool) where
  handle_condition_event-fields :
      (t : SimpleConditionTracker K) (key : K) (start : Bool)
      → let (u, o) = handle_condition_event t key start in
        (is_evaluated o.state ≡ true) × (u.index ≡ t.index)
  unfolding handle_condition_event hit_guard_rail new_key_event start_event stop_event
  handle_condition_event-fields t key start = (ground arith, ground arith)

  handled-IsWritten :
      (t : SimpleConditionTracker K) (key : K) (start : Bool) (c : Caches)
      → let (u, o) = handle_condition_event t key start in
        IsWritten t.index c (write default_key contains u c o).1
  unfolding write
  handled-IsWritten t key start c =
      let (evaluated, same) = handle_condition_event-fields t key start in
      record {
        state = (handle_condition_event t key start).1.state;
        evaluated = evaluated;
        written = rw same refl;
      }

  -- What is reported without a matching event is a state, since the default is one.
  current_state-evaluated :
      (t : SimpleConditionTracker K)
      → IsTracked t
      → is_evaluated (current_state default_key contains t) ≡ true
  unfolding current_state
  current_state-evaluated t v = ground (arith, v.initial)

  matched_event-IsWritten :
      (t : SimpleConditionTracker K) (output_key : K) (start : Bool) (c : Caches)
      → IsTracked t
      → IsWritten t.index c (matched_event default_key contains t output_key start c).1
  unfolding matched_event
  matched_event-IsWritten t output_key start c v =
      if_both At (not t.has_output_dimensions) _ _ (λ _. handled-IsWritten t default_key start c)
        (λ _.
          if_both At (not t.contains_any_position) _ _ (λ _. handled-IsWritten t output_key start c)
            (λ _.
              unfold write in
              record {
                state = t.initial_value;
                evaluated = ground (arith, v.initial);
                written = refl;
              }))
    where
      At : SimpleConditionTracker K × Caches → Type 0
      At r = IsWritten t.index c r.1

  evaluate_condition-IsWritten :
      (t : SimpleConditionTracker K) (output_key : K) (values : List MatchingState) (c : Caches)
      → IsTracked t
      → is_evaluated (state_at c.condition t.index) ≡ false
      → IsWritten t.index c
          (Evaluate.evaluate_condition default_key contains t output_key values c).1
  unfolding Evaluate.evaluate_condition
  evaluate_condition-IsWritten t output_key values c v f = rw f (
      if_both At (is_matched values t.stop_all_index) _ _
        (λ _.
          unfold handle_stop_all in record { state = is_false; evaluated = refl; written = refl })
        (λ _. elim (Option-cases (matched_state t values)) [
          | inl none_matched ↦ rw none_matched (
              unfold write in
              record {
                state = current_state default_key contains cleared;
                evaluated = current_state-evaluated cleared tracked;
                written = refl;
              })
          | inr (start, h) ↦ rw h (matched_event-IsWritten cleared output_key start c tracked)
        ]))
    where
      cleared : SimpleConditionTracker K
      cleared = record t { last_changed_to_true = []; last_changed_to_false = [] }

      tracked : IsTracked cleared
      tracked = record { initial = v.initial; started = v.started }

      At : SimpleConditionTracker K × Caches → Type 0
      At r = IsWritten t.index c r.1

  evaluate_condition_kept :
      (t : SimpleConditionTracker K) (output_key : K) (values : List MatchingState) (c : Caches)
      → is_evaluated (state_at c.condition t.index) ≡ true
      → (Evaluate.evaluate_condition default_key contains t output_key values c).1 ≡ c
  unfolding Evaluate.evaluate_condition
  evaluate_condition_kept t output_key values c h = rw h refl

  -- evaluateCondition of the simple tracker at each index.
  pub simple_children :
      (trackers : ℕ → SimpleConditionTracker K) (output_key : K) (values : List MatchingState)
      → ((i : ℕ) → (trackers i).index ≡ i)
      → ((i : ℕ) → IsTracked (trackers i))
      → Children
  simple_children trackers output_key values indexed tracked = record {
    evaluate = evaluate;
    size = λ i c. elim (Bool-cases (is_evaluated (state_at c.condition i))) [
      | inl h ↦ ap (λ (d : Caches). length d.condition) (kept i c h)
      | inr f ↦ written-size i c (evaluate i c) (fresh i c f)
    ];
    fills = λ i c inside. elim (Bool-cases (is_evaluated (state_at c.condition i))) [
      | inl h ↦ ap (λ (d : Caches). is_evaluated (state_at d.condition i)) (kept i c h) ∙ h
      | inr f ↦ written-fills i c (evaluate i c) (fresh i c f) inside
    ];
    keeps = λ i j c f h. written-keeps i j c (evaluate i c) (fresh i c f) f h;
  }
    where
      evaluate : ℕ → Caches → Caches
      evaluate i c =
          (Evaluate.evaluate_condition default_key contains (trackers i) output_key values c).1

      kept : (i : ℕ) (c : Caches) → is_evaluated (state_at c.condition i) ≡ true → evaluate i c ≡ c
      kept i c h =
          evaluate_condition_kept (trackers i) output_key values c
            (ap (λ k. is_evaluated (state_at c.condition k)) (indexed i) ∙ h)

      fresh :
          (i : ℕ) (c : Caches)
          → is_evaluated (state_at c.condition i) ≡ false
          → IsWritten i c (evaluate i c)
      fresh i c f =
          subst (λ k. IsWritten k c (evaluate i c)) (indexed i)
            (evaluate_condition-IsWritten (trackers i) output_key values c (tracked i)
              (ap (λ k. is_evaluated (state_at c.condition k)) (indexed i) ∙ f))
