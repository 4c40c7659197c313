-- ===== src/Condition/Simple/Events.antt =====
-- What one start or stop event does: the reported state is the state that a query finds
-- afterwards, the change flag is exact, and no other key is touched.
use packages_modules_stats_d.Common.{
  ℕ, ◌+◌, ◌<◌, ◌≡◌, ◌⊎◌, inl, inr, none, some, Bool, true, false, arith, if◌then◌else◌, Eq,
  beq_refl, Option-cases,
}
use packages_modules_stats_d.Common.Dict.{get, get-put, get-erase}
use packages_modules_stats_d.Condition.Util.{differs, ConditionState, unknown, is_false, join}
use packages_modules_stats_d.Condition.Simple.{
  SimpleConditionTracker, Outcome, hit_guard_rail, new_key_event, start_event, stop_event,
  handle_condition_event, stopped_count,
}
use packages_modules_stats_d.Condition.Simple.Evaluate.{met}

-- The default is false or unknown, and under a false default only positive counts are kept.
pub record IsTracked {K : Type 0} ⦃e : Eq K⦄ (t : SimpleConditionTracker K) : Type 0 where
  pub initial : (t.initial_value ≡ is_false) ⊎ (t.initial_value ≡ unknown)
  pub started :
      t.initial_value ≡ is_false → (k : K) (n : ℕ) → get t.sliced_condition_state k ≡ some n → 0 < n

module _ {K : Type 0} ⦃e : Eq K⦄ (default_key : K) (contains : K → K → Bool) where
  -- The state of one key, as a query with a full link finds it.
  abbrev pub met_key : SimpleConditionTracker K → K → ConditionState
  met_key t k = met default_key contains t (some k) false

  -- An event at `key` took `t` to the tracker and outcome of `r`.
  abbrev pub Reports : SimpleConditionTracker K → K → SimpleConditionTracker K × Outcome → Type 0
  Reports t key r =
      (r.1.state ≡ met_key r.0 key)
      × (r.1.changed ≡ differs (met_key t key) (met_key r.0 key))
      × ((j : K) → e.beq key j ≡ false → met_key r.0 j ≡ met_key t j)

  start-Reports :
      (t : SimpleConditionTracker K) (key : K) (n : ℕ)
      → IsTracked t
      → get t.sliced_condition_state key ≡ some n
      → Reports t key (start_event t key n)
  unfolding start_event met join
  start-Reports t key n w h = (
    ground (arith, w.initial, get-put t.sliced_condition_state key key (n + 1), beq_refl e key),
    ground (arith, w.initial, get-put t.sliced_condition_state key key (n + 1), beq_refl e key),
    λ j ne. ground (arith, get-put t.sliced_condition_state key j (n + 1)),
  )

  stop-Reports :
      (t : SimpleConditionTracker K) (key : K) (n : ℕ)
      → IsTracked t
      → get t.sliced_condition_state key ≡ some n
      → Reports t key (stop_event t key n)
  unfolding stop_event met join
  stop-Reports t key n w h =
      let m = t.sliced_condition_state in
      let left = stopped_count t.count_nesting n in
      let own_put = get-put m key key left in
      let own_erase = get-erase m key key in
      (
        ground (arith, w.initial, own_put, own_erase, beq_refl e key),
        ground (
          arith,
          w.initial,
          (λ (f : t.initial_value ≡ is_false). w.started f key n h),
          own_put,
          own_erase,
          beq_refl e key,
        ),
        λ j ne. ground (arith, get-put m key j left, get-erase m key j),
      )

  new_key-Reports :
      (t : SimpleConditionTracker K) (key : K) (start : Bool)
      → IsTracked t
      → get t.sliced_condition_state key ≡ none
      → Reports t key (new_key_event t key start)
  unfolding new_key_event met join
  new_key-Reports t key start w h =
      let m = t.sliced_condition_state in
      let one = get-put m key key 1 in
      let nought = get-put m key key 0 in
      (
        ground (arith, w.initial, one, nought, beq_refl e key),
        ground (arith, w.initial, one, nought, beq_refl e key),
        λ j ne. ground (arith, w.initial, get-put m key j 1, get-put m key j 0),
      )

  -- For an event that the guard rail lets through: the reported state of the key is the state that
  -- a query for it finds afterwards, the change flag is set exactly if that state differs from the
  -- one before, and the state of every other key stays.
  pub handle_condition_event-Reports :
      (t : SimpleConditionTracker K) (key : K) (start : Bool)
      → IsTracked t
      → hit_guard_rail t key ≡ false
      → Reports t key (handle_condition_event t key start)
  unfolding handle_condition_event
  handle_condition_event-Reports t key start w g =
      elim (Option-cases (get t.sliced_condition_state key)) [
        | inl h ↦ rw (g, handle_condition_event, h) (new_key-Reports t key start w h)
        | inr (n, h) ↦ rw (g, handle_condition_event, h) (seen start n h)
      ]
    where
      seen :
          (b : Bool) (n : ℕ)
          → get t.sliced_condition_state key ≡ some n
          → Reports t key (if b then start_event t key n else stop_event t key n)
      seen true n h = start-Reports t key n w h
      seen false n h = stop-Reports t key n w h
