-- ===== src/Condition/Simple.antt =====
-- statsd/src/condition/SimpleConditionTracker.h and .cpp: a predicate that start, stop and stop-all
-- events switch, for each dimension key. Keys are a type with an equality test; the key of an event
-- is the one that `filterValues` picks. Counts of starts are natural numbers: the source counts
-- down from a positive count only. A cache is a list, indexed by tracker.
pub mod Evaluate
pub mod Events
pub mod Invariant
pub mod Nesting
pub mod Tests
use packages_modules_stats_d.Common.{
  ℕ, zero, suc, ◌+◌, ◌-◌, Option, none, some, Bool, true, false, ◌&&◌, ◌||◌, not, List, [], ◌∷◌,
  ltb, leb, ◌==◌, if◌then◌else◌, length, set, get_or, Eq, nat_eq,
}
use packages_modules_stats_d.Common.Dict.{Dict, get, put, erase}
use packages_modules_stats_d.Condition.Util.{
  ConditionState, not_evaluated, unknown, is_false, is_true, join, is_evaluated, state_at,
  InitialValue, convert_initial_value,
}

pub data MatchingState : Type 0 where
  not_computed not_matched matched : MatchingState

-- StatsdStats::kDimensionKeySizeSoftLimit, kDimensionKeySizeHardLimit
abbrev pub soft_limit : ℕ
soft_limit = 500

abbrev pub hard_limit : ℕ
hard_limit = 800

-- An index of -1 is `none`. `last_changed_to_true` and `last_changed_to_false` are sets.
pub record SimpleConditionTracker (K : Type 0) : Type 0 where
  pub condition_id : ℕ
  pub index : ℕ
  pub sliced : Bool
  pub count_nesting : Bool
  pub start_index : Option ℕ
  pub stop_index : Option ℕ
  pub stop_all_index : Option ℕ
  pub initial_value : ConditionState
  pub has_output_dimensions : Bool
  pub contains_any_position : Bool
  pub last_changed_to_true : List K
  pub last_changed_to_false : List K
  pub sliced_condition_state : Dict K ℕ

-- The two caches that an evaluation fills.
pub record Caches : Type 0 where
  pub condition : List ConditionState
  pub changed : List Bool

-- (*conditionCache, *conditionChangedCache) of one event
pub record Outcome : Type 0 where
  pub state : ConditionState
  pub changed : Bool

-- startedCount > 0 ? kTrue : kFalse
abbrev pub state_of_count : ℕ → ConditionState
state_of_count n = if ltb 0 n then is_true else is_false

abbrev pub is_initial_true : ConditionState → Bool
is_initial_true is_true = true
is_initial_true _ = false

abbrev pub is_initial_false : ConditionState → Bool
is_initial_false is_false = true
is_initial_false _ = false

abbrev pub is_empty {ℓ} : {A : Type ℓ} → List A → Bool
is_empty [] = true
is_empty (x ∷ xs) = false

-- The count that a stop leaves.
abbrev pub stopped_count : Bool → ℕ → ℕ
stopped_count nesting n = if ltb 0 n then (if nesting then n - 1 else 0) else n

module _ {K : Type 0} ⦃e : Eq K⦄ where
  -- set.insert(k)
  unfoldable pub insert_key : List K → K → List K
  insert_key [] k = k ∷ []
  insert_key (j ∷ js) k = if e.beq j k then j ∷ js else j ∷ insert_key js k

  -- for (cond : mSlicedConditionState) if (cond.second > 0) insert(cond.first)
  unfoldable pub insert_started : List K → Dict K ℕ → List K
  unfolding insert_key
  insert_started ks [] = ks
  insert_started ks ((k, n) ∷ rest) = insert_started (if ltb 0 n then insert_key ks k else ks) rest

  unfoldable pub handle_stop_all :
      SimpleConditionTracker K → Caches → SimpleConditionTracker K × Caches
  unfolding insert_started
  handle_stop_all t c = (
    record t {
      last_changed_to_false = insert_started t.last_changed_to_false t.sliced_condition_state;
      initial_value = is_false;
      sliced_condition_state = [];
    },
    record {
      condition = set c.condition t.index is_false;
      changed =
          set c.changed t.index
            (not (is_initial_false t.initial_value && is_empty t.sliced_condition_state));
    },
  )

  unfoldable pub hit_guard_rail : SimpleConditionTracker K → K → Bool
  hit_guard_rail t new_key =
      if not t.sliced then false else elim (get t.sliced_condition_state new_key) [
        | some _ ↦ false
        | none ↦
            leb soft_limit (length t.sliced_condition_state)
            && ltb hard_limit (length t.sliced_condition_state + 1)
      ]

  -- The branch of handleConditionEvent for a new output key.
  unfoldable pub new_key_event :
      SimpleConditionTracker K → K → Bool → SimpleConditionTracker K × Outcome
  unfolding insert_key
  new_key_event t key match_start =
      let state = if match_start then is_true else is_false in
      if match_start && not (is_initial_true t.initial_value)
      then (
        record t {
          sliced_condition_state = put t.sliced_condition_state key 1;
          last_changed_to_true = insert_key t.last_changed_to_true key;
        },
        record { state = state; changed = true },
      )
      else if not (is_initial_false t.initial_value)
      then (
        record t {
          sliced_condition_state = put t.sliced_condition_state key 0;
          last_changed_to_false = insert_key t.last_changed_to_false key;
        },
        record { state = state; changed = true },
      )
      else (t, record { state = state; changed = false })

  -- A start for a key with history.
  unfoldable pub start_event : SimpleConditionTracker K → K → ℕ → SimpleConditionTracker K × Outcome
  unfolding insert_key
  start_event t key started_count = (
    record t {
      sliced_condition_state = put t.sliced_condition_state key (started_count + 1);
      last_changed_to_true =
          if started_count == 0
          then insert_key t.last_changed_to_true key
          else t.last_changed_to_true;
    },
    record { state = is_true; changed = started_count == 0 },
  )

  -- A stop for a key with history: the entry goes if the default is false and nothing is started.
  unfoldable pub stop_event : SimpleConditionTracker K → K → ℕ → SimpleConditionTracker K × Outcome
  unfolding insert_key
  stop_event t key started_count =
      let left = stopped_count t.count_nesting started_count in
      let changed = ltb 0 started_count && left == 0 in
      (
        record t {
          sliced_condition_state =
              if is_initial_false t.initial_value && left == 0
              then erase t.sliced_condition_state key
              else put t.sliced_condition_state key left;
          last_changed_to_false =
              if changed then insert_key t.last_changed_to_false key else t.last_changed_to_false;
        },
        record {
          state = if changed then is_false else state_of_count started_count;
          changed = changed;
        },
      )

  unfoldable pub handle_condition_event :
      SimpleConditionTracker K → K → Bool → SimpleConditionTracker K × Outcome
  unfolding hit_guard_rail new_key_event start_event stop_event
  handle_condition_event t key match_start =
      if hit_guard_rail t key
      then (t, record { state = unknown; changed = false })
      else elim (get t.sliced_condition_state key) [
        | none ↦ new_key_event t key match_start
        | some n ↦ if match_start then start_event t key n else stop_event t key n
      ]
