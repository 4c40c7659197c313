-- ===== src/Condition/Simple/Evaluate.antt =====
-- evaluateCondition, isConditionMet and the matcher indices of SimpleConditionTracker.cpp.
use packages_modules_stats_d.Common.{
  ℕ, Option, none, some, Bool, true, false, not, List, [], ◌∷◌, ltb, if◌then◌else◌, get_elem?, set,
  Eq, nat_eq,
}
use packages_modules_stats_d.Common.Dict.{Dict, get}
use packages_modules_stats_d.Condition.Util.{
  ConditionState, not_evaluated, is_true, join, is_evaluated, state_at,
}
use packages_modules_stats_d.Condition.Simple.{
  SimpleConditionTracker, Caches, Outcome, MatchingState, matched, state_of_count, handle_stop_all,
  handle_condition_event,
}

-- eventMatcherValues[index] == kMatched, for an index that is not -1.
abbrev pub is_matched : List MatchingState → Option ℕ → Bool
is_matched values none = false
is_matched values (some i) = elim (get_elem? values i) [ some matched ↦ true | _ ↦ false ]

-- matchedState: stop overwrites start; `none` is -1.
abbrev pub matched_state :
    {K : Type 0} → SimpleConditionTracker K → List MatchingState → Option Bool
matched_state t values =
    if is_matched values t.stop_index
    then some false
    else if is_matched values t.start_index
    then some true
    else none

module _ {K : Type 0} ⦃e : Eq K⦄ (default_key : K) (contains : K → K → Bool) where
  -- Some entry has a positive count.
  unfoldable pub some_started : Dict K ℕ → Bool
  some_started [] = false
  some_started ((k, n) ∷ rest) = if ltb 0 n then true else some_started rest

  -- What is reported when the event does not match.
  unfoldable pub current_state : SimpleConditionTracker K → ConditionState
  unfolding some_started
  current_state t =
      if t.sliced
      then (if some_started t.sliced_condition_state then is_true else t.initial_value)
      else elim (get t.sliced_condition_state default_key) [
        | none ↦ t.initial_value
        | some n ↦ state_of_count n
      ]

  unfoldable pub write :
      SimpleConditionTracker K → Caches → Outcome → SimpleConditionTracker K × Caches
  write t c o = (
    t,
    record {
      condition = set c.condition t.index o.state;
      changed = set c.changed t.index o.changed;
    },
  )

  -- A start or stop event, for the default key or the key that the event carries. A tracker that
  -- is sliced by position ANY only logs an error.
  unfoldable pub matched_event :
      SimpleConditionTracker K → K → Bool → Caches → SimpleConditionTracker K × Caches
  unfolding write
  matched_event t output_key start c =
      if not t.has_output_dimensions
      then (let (t', o) = handle_condition_event t default_key start in write t' c o)
      else if not t.contains_any_position
      then (let (t', o) = handle_condition_event t output_key start in write t' c o)
      else write t c (record { state = t.initial_value; changed = false })

  unfoldable pub evaluate_condition :
      SimpleConditionTracker K → K → List MatchingState → Caches → SimpleConditionTracker K × Caches
  unfolding matched_event write current_state
  evaluate_condition t output_key values c =
      if is_evaluated (state_at c.condition t.index)
      then (t, c)
      else let cleared = record t { last_changed_to_true = []; last_changed_to_false = [] } in
        if is_matched values t.stop_all_index
        then handle_stop_all cleared c
        else elim (matched_state t values) [
          | none ↦ write cleared c (record { state = current_state cleared; changed = false })
          | some start ↦ matched_event cleared output_key start c
        ]

  abbrev slice_of : Option ℕ → ConditionState → ConditionState
  slice_of none s = s
  slice_of (some n) s = join s (state_of_count n)

  -- The loop over the slices that contain the key.
  unfoldable pub join_slices : Dict K ℕ → K → ConditionState → ConditionState
  join_slices [] key s = s
  join_slices ((k, n) ∷ rest) key s =
      join_slices rest key (if contains k key then join s (state_of_count n) else s)

  -- The state that isConditionMet computes for the key that the parameters link, if any.
  unfoldable pub met : SimpleConditionTracker K → Option K → Bool → ConditionState
  unfolding join_slices
  met t none partial_link =
      let s = join not_evaluated t.initial_value in
      if t.sliced then s else slice_of (get t.sliced_condition_state default_key) s
  met t (some key) partial_link =
      let s = join not_evaluated t.initial_value in
      if partial_link
      then join_slices t.sliced_condition_state key s
      else slice_of (get t.sliced_condition_state key) s

  unfoldable pub is_condition_met :
      SimpleConditionTracker K → Dict ℕ K → Bool → List ConditionState → List ConditionState
  unfolding met
  is_condition_met t parameters partial_link cache =
      if is_evaluated (state_at cache t.index)
      then cache
      else set cache t.index (met t (get parameters t.condition_id) partial_link)
