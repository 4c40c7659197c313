-- ===== src/Condition/Simple/Nesting.antt =====
-- A history of starts and stops of one key, against the nesting depth that it reaches.
use packages_modules_stats_d.Common.{
  ℕ, ◌+◌, ◌-◌, ◌<◌, ◌≡◌, ◌↔◌, inl, inr, refl, ◌∙◌, Option, none, some, Bool, true, false, List, [],
  ◌∷◌, arith, if◌then◌else◌, Eq, beq_refl, Option-cases,
}
use packages_modules_stats_d.Common.Dict.{get, get-put, get-erase}
use packages_modules_stats_d.Condition.Util.{is_true, join}
use packages_modules_stats_d.Condition.Simple.{
  SimpleConditionTracker, hit_guard_rail, new_key_event, start_event, stop_event,
  handle_condition_event, stopped_count,
}
use packages_modules_stats_d.Condition.Simple.Evaluate.{met}
use packages_modules_stats_d.Condition.Simple.Events.{IsTracked, met_key}
use packages_modules_stats_d.Condition.Simple.Invariant.{handle_condition_event-IsTracked}

abbrev or_zero : Option ℕ → ℕ
or_zero none = 0
or_zero (some n) = n

-- The depth after a history, `true` for a start: with nesting each stop undoes one start, without
-- it a stop undoes all.
pub depth : Bool → ℕ → List Bool → ℕ
depth nesting n [] = n
depth nesting n (true ∷ rest) = depth nesting (n + 1) rest
depth nesting n (false ∷ rest) = depth nesting (if nesting then n - 1 else 0) rest

stop_depth : (nesting : Bool) (n : ℕ) → stopped_count nesting n ≡ (if nesting then n - 1 else 0)
stop_depth nesting n = ground arith

depth_eq :
    (m n : Bool) (a b c : ℕ) (rest : List Bool)
    → m ≡ n
    → a ≡ b
    → b ≡ c
    → depth m a rest ≡ depth n c rest
depth_eq m n a b c rest p q r = cc

module _ {K : Type 0} ⦃e : Eq K⦄ where
  pub run : SimpleConditionTracker K → K → List Bool → SimpleConditionTracker K
  run t key [] = t
  run t key (start ∷ rest) = run (handle_condition_event t key start).0 key rest

  abbrev pub count_of : SimpleConditionTracker K → K → ℕ
  count_of t key = or_zero (get t.sliced_condition_state key)

  -- The count after one event, on a tracker that no guard rail limits; the flags stay.
  abbrev Counts : SimpleConditionTracker K → K → Bool → ℕ → SimpleConditionTracker K → Type 0
  Counts t key start n u =
      (count_of u key ≡ (if start then n + 1 else stopped_count t.count_nesting n))
      × (u.sliced ≡ t.sliced)
      × (u.count_nesting ≡ t.count_nesting)

  new_key-Counts :
      (t : SimpleConditionTracker K) (key : K) (start : Bool)
      → IsTracked t
      → get t.sliced_condition_state key ≡ none
      → Counts t key start 0 (new_key_event t key start).0
  unfolding new_key_event
  new_key-Counts t key start w h =
      let m = t.sliced_condition_state in
      ground (arith, w.initial, get-put m key key 1, get-put m key key 0, beq_refl e key)

  known-Counts :
      (t : SimpleConditionTracker K) (key : K) (start : Bool) (n : ℕ)
      → get t.sliced_condition_state key ≡ some n
      → Counts t key start n (if start then start_event t key n else stop_event t key n).0
  unfolding start_event stop_event
  known-Counts t key start n h =
      let m = t.sliced_condition_state in
      ground (
        arith,
        get-put m key key (n + 1),
        get-put m key key (stopped_count t.count_nesting n),
        get-erase m key key,
        beq_refl e key,
      )

  handle_condition_event-Counts :
      (t : SimpleConditionTracker K) (key : K) (start : Bool)
      → IsTracked t
      → t.sliced ≡ false
      → Counts t key start (count_of t key) (handle_condition_event t key start).0
  unfolding handle_condition_event
  handle_condition_event-Counts t key start w u =
      elim (Option-cases (get t.sliced_condition_state key)) [
        | inl h ↦ rw (open_rail, handle_condition_event, h) (new_key-Counts t key start w h)
        | inr (n, h) ↦ rw (open_rail, handle_condition_event, h) (known-Counts t key start n h)
      ]
    where
      open_rail : hit_guard_rail t key ≡ false
      open_rail = unfold hit_guard_rail in ground arith

  count-run :
      (t : SimpleConditionTracker K) (key : K) (events : List Bool)
      → IsTracked t
      → t.sliced ≡ false
      → count_of (run t key events) key ≡ depth t.count_nesting (count_of t key) events
  unfolding run depth
  count-run t key [] w u = refl
  count-run t key (true ∷ rest) w u =
      let c = handle_condition_event-Counts t key true w u in
      count-run (handle_condition_event t key true).0 key rest
        (handle_condition_event-IsTracked t key true w) (c.1 ∙ u)
      ∙ depth_eq _ _ _ _ _ rest c.2 c.0 refl
  count-run t key (false ∷ rest) w u =
      let c = handle_condition_event-Counts t key false w u in
      count-run (handle_condition_event t key false).0 key rest
        (handle_condition_event-IsTracked t key false w) (c.1 ∙ u)
      ∙ depth_eq _ _ _ _ _ rest c.2 c.0 (stop_depth t.count_nesting (count_of t key))

  IsTracked-run :
      (t : SimpleConditionTracker K) (key : K) (events : List Bool)
      → IsTracked t
      → IsTracked (run t key events)
  unfolding run
  IsTracked-run t key [] w = w
  IsTracked-run t key (start ∷ rest) w =
      IsTracked-run (handle_condition_event t key start).0 key rest
        (handle_condition_event-IsTracked t key start w)

  met_iff_started :
      (default_key : K) (contains : K → K → Bool) (t : SimpleConditionTracker K) (key : K)
      → IsTracked t
      → (met_key default_key contains t key ≡ is_true) ↔ (0 < count_of t key)
  unfolding met join
  met_iff_started default_key contains t key w = ground (arith, w.initial)

  -- For an unsliced predicate, after any starts and stops, a query finds it true exactly if the
  -- nesting depth that the history reaches, from the depth at hand, is positive.
  pub met-run :
      (default_key : K) (contains : K → K → Bool) (t : SimpleConditionTracker K) (key : K)
      (events : List Bool)
      → IsTracked t
      → t.sliced ≡ false
      → (met_key default_key contains (run t key events) key ≡ is_true)
        ↔ (0 < depth t.count_nesting (count_of t key) events)
  met-run default_key contains t key events w u =
      rw (← count-run t key events w u)
        (met_iff_started default_key contains (run t key events) key (IsTracked-run t key events w))
