-- ===== src/Condition/Simple/Invariant.antt =====
-- What every evaluation keeps: the default stays false or unknown, no zero count is kept under a
-- false default, and the number of dimension keys stays within the guard rail.
use packages_modules_stats_d.Common.{
  ℕ, ◌+◌, ◌≤◌, ◌≡◌, inl, inr, refl, none, some, Bool, true, false, List, [], arith, if◌then◌else◌,
  length, Eq, Bool-cases, Option-cases,
}
use packages_modules_stats_d.Common.Dict.{get, get-put, get-erase, length-put, length-erase}
use packages_modules_stats_d.Condition.Util.{is_false}
use packages_modules_stats_d.Condition.Simple.{
  SimpleConditionTracker, Caches, MatchingState, hard_limit, hit_guard_rail, new_key_event,
  start_event, stop_event, handle_condition_event, handle_stop_all, stopped_count,
}
use packages_modules_stats_d.Condition.Simple.Evaluate.{matched_event, evaluate_condition}
use packages_modules_stats_d.Condition.Simple.Events.{IsTracked}

module _ {K : Type 0} ⦃e : Eq K⦄ where
  new_key-IsTracked :
      (t : SimpleConditionTracker K) (key : K) (start : Bool)
      → IsTracked t
      → IsTracked (new_key_event t key start).0
  unfolding new_key_event
  new_key-IsTracked t key start w = record {
    initial = ground (arith, w.initial);
    started = λ f k n h. ground (
      arith,
      w.initial,
      (λ (p : t.initial_value ≡ is_false). w.started p k n),
      get-put t.sliced_condition_state key k 1,
      get-put t.sliced_condition_state key k 0,
    );
  }

  known-IsTracked :
      (t : SimpleConditionTracker K) (key : K) (start : Bool) (m : ℕ)
      → IsTracked t
      → IsTracked (if start then start_event t key m else stop_event t key m).0
  unfolding start_event stop_event
  known-IsTracked t key start m w = record {
    initial = ground (arith, w.initial);
    started = λ f k n h. ground (
      arith,
      w.initial,
      (λ (p : t.initial_value ≡ is_false). w.started p k n),
      get-put t.sliced_condition_state key k (m + 1),
      get-put t.sliced_condition_state key k (stopped_count t.count_nesting m),
      get-erase t.sliced_condition_state key k,
    );
  }

  pub handle_condition_event-IsTracked :
      (t : SimpleConditionTracker K) (key : K) (start : Bool)
      → IsTracked t
      → IsTracked (handle_condition_event t key start).0
  unfolding handle_condition_event
  handle_condition_event-IsTracked t key start w = elim (Bool-cases (hit_guard_rail t key)) [
    | inl g ↦ rw (g, handle_condition_event) w
    | inr g ↦ elim (Option-cases (get t.sliced_condition_state key)) [
      | inl h ↦ rw (g, handle_condition_event, h) (new_key-IsTracked t key start w)
      | inr (n, h) ↦ rw (g, handle_condition_event, h) (known-IsTracked t key start n w)
    ]
  ]

  handle_stop_all-IsTracked :
      (t : SimpleConditionTracker K) (c : Caches) → IsTracked (handle_stop_all t c).0
  unfolding handle_stop_all get
  handle_stop_all-IsTracked t c = record { initial = inl refl; started = λ f k n h. ground arith }

  -- The number of keys of a sliced tracker.
  abbrev pub IsBounded : SimpleConditionTracker K → Type 0
  IsBounded t = (t.sliced ≡ true) × (length t.sliced_condition_state ≤ hard_limit)

  new_key-IsBounded :
      (t : SimpleConditionTracker K) (key : K) (start : Bool)
      → IsBounded t
      → hit_guard_rail t key ≡ false
      → get t.sliced_condition_state key ≡ none
      → IsBounded (new_key_event t key start).0
  unfolding hit_guard_rail new_key_event
  new_key-IsBounded t key start b g h =
      let m = t.sliced_condition_state in ground (arith, length-put m key 1, length-put m key 0)

  known-IsBounded :
      (t : SimpleConditionTracker K) (key : K) (start : Bool) (n : ℕ)
      → IsBounded t
      → get t.sliced_condition_state key ≡ some n
      → IsBounded (if start then start_event t key n else stop_event t key n).0
  unfolding start_event stop_event
  known-IsBounded t key start n b h =
      let m = t.sliced_condition_state in
      ground (
        arith,
        length-put m key (n + 1),
        length-put m key (stopped_count t.count_nesting n),
        length-erase m key,
      )

  handle_condition_event-IsBounded :
      (t : SimpleConditionTracker K) (key : K) (start : Bool)
      → IsBounded t
      → IsBounded (handle_condition_event t key start).0
  unfolding handle_condition_event
  handle_condition_event-IsBounded t key start b = elim (Bool-cases (hit_guard_rail t key)) [
    | inl g ↦ rw (g, handle_condition_event) b
    | inr g ↦ elim (Option-cases (get t.sliced_condition_state key)) [
      | inl h ↦ rw (g, handle_condition_event, h) (new_key-IsBounded t key start b g h)
      | inr (n, h) ↦ rw (g, handle_condition_event, h) (known-IsBounded t key start n b h)
    ]
  ]

  handle_stop_all-IsBounded :
      (t : SimpleConditionTracker K) (c : Caches) → IsBounded t → IsBounded (handle_stop_all t c).0
  unfolding handle_stop_all
  handle_stop_all-IsBounded t c b = (b.0, omega arith)

-- Preservation by every branch of an evaluation, for a property that the log of changed keys does
-- not enter.
module _ {K : Type 0} ⦃e : Eq K⦄ (default_key : K) (contains : K → K → Bool)
    (P : SimpleConditionTracker K → Type 0)
    (at_event : (t : SimpleConditionTracker K) (key : K) (start : Bool)
      → P t
      → P (handle_condition_event t key start).0)
    (at_stop_all : (t : SimpleConditionTracker K) (c : Caches) → P t → P (handle_stop_all t c).0)
    (cleared : (t : SimpleConditionTracker K)
      → P t
      → P (record t { last_changed_to_true = []; last_changed_to_false = [] })) where
  matched_event-keeps :
      (t : SimpleConditionTracker K) (key : K) (start : Bool) (c : Caches)
      → P t
      → P (matched_event default_key contains t key start c).0
  unfolding matched_event
  matched_event-keeps t key start c p =
      ground (arith, at_event t default_key start p, at_event t key start p)

  evaluate_condition-keeps :
      (t : SimpleConditionTracker K) (key : K) (values : List MatchingState) (c : Caches)
      → P t
      → P (evaluate_condition default_key contains t key values c).0
  unfolding evaluate_condition
  evaluate_condition-keeps t key values c p =
      let p' = cleared t p in
      ground (
        arith,
        p',
        at_stop_all _ c p',
        matched_event-keeps _ key true c p',
        matched_event-keeps _ key false c p',
      )

module _ {K : Type 0} ⦃e : Eq K⦄ (default_key : K) (contains : K → K → Bool) where
  -- An evaluation, whatever the event matches, keeps the default false or unknown, and keeps only
  -- positive counts under a false default.
  pub evaluate_condition-IsTracked :
      (t : SimpleConditionTracker K) (key : K) (values : List MatchingState) (c : Caches)
      → IsTracked t
      → IsTracked (evaluate_condition default_key contains t key values c).0
  evaluate_condition-IsTracked =
      evaluate_condition-keeps default_key contains IsTracked handle_condition_event-IsTracked
        (λ t c w. handle_stop_all-IsTracked t c)
        (λ t w. record { initial = w.initial; started = w.started })

  -- An evaluation of a sliced tracker never takes it past the hard limit of dimension keys.
  pub evaluate_condition-IsBounded :
      (t : SimpleConditionTracker K) (key : K) (values : List MatchingState) (c : Caches)
      → IsBounded t
      → IsBounded (evaluate_condition default_key contains t key values c).0
  evaluate_condition-IsBounded =
      evaluate_condition-keeps default_key contains IsBounded handle_condition_event-IsBounded
        handle_stop_all-IsBounded (λ t b. b)
