-- ===== src/Condition/Simple/Tests.antt =====
-- Runs of a tracker over numbered keys, and the theorems at concrete inputs.
use packages_modules_stats_d.Common.{
  ℕ, ◌≡◌, ◌<◌, ◌↔◌, inl, inr, refl, none, some, true, false, [], ◌∷◌, ◌==◌, arith, nat_eq,
}
use packages_modules_stats_d.Condition.Util.{unknown, is_false, is_true, not_evaluated}
use packages_modules_stats_d.Condition.Simple.{
  SimpleConditionTracker, Caches, matched, not_matched, handle_condition_event, hit_guard_rail,
}
use packages_modules_stats_d.Condition.Simple.Evaluate.{evaluate_condition}
use packages_modules_stats_d.Condition.Simple.Events.{
  IsTracked, Reports, met_key, handle_condition_event-Reports,
}
use packages_modules_stats_d.Condition.Simple.Invariant.{
  IsBounded, evaluate_condition-IsTracked, evaluate_condition-IsBounded,
}
use packages_modules_stats_d.Condition.Simple.Nesting.{run, depth, met-run}
use packages_modules_stats_d.Common.Dict.{get}

abbrev wakelock : SimpleConditionTracker ℕ
wakelock = record {
  condition_id = 5;
  index = 0;
  sliced = false;
  count_nesting = true;
  start_index = some 0;
  stop_index = some 1;
  stop_all_index = none;
  initial_value = unknown;
  has_output_dimensions = false;
  contains_any_position = false;
  last_changed_to_true = [];
  last_changed_to_false = [];
  sliced_condition_state = [];
}

abbrev per_uid : SimpleConditionTracker ℕ
per_uid = record wakelock {
  sliced = true;
  has_output_dimensions = true;
  initial_value = is_false;
  sliced_condition_state = (1000, 1) ∷ [];
}

abbrev fresh : Caches
fresh = record { condition = not_evaluated ∷ []; changed = false ∷ [] }

wakelock-IsTracked : IsTracked wakelock
unfolding get
wakelock-IsTracked = record { initial = inr refl; started = λ f k n h. cc }

per_uid-IsTracked : IsTracked per_uid
unfolding get
per_uid-IsTracked = record { initial = inl refl; started = λ f k n h. ground arith }

-- A start of a new uid is reported true and changed.
start_new_uid :
    (evaluate_condition 0 ◌==◌ per_uid 1001 (matched ∷ not_matched ∷ []) fresh).1
    ≡ record { condition = is_true ∷ []; changed = true ∷ [] }
unfolding evaluate_condition handle_condition_event get
start_new_uid = refl

handle_condition_event_example :
    Reports 0 ◌==◌ per_uid 1001 (handle_condition_event per_uid 1001 true)
handle_condition_event_example =
    handle_condition_event-Reports 0 ◌==◌ per_uid 1001 true per_uid-IsTracked
      (unfold hit_guard_rail get in refl)

evaluate_condition-IsTracked_example :
    IsTracked (evaluate_condition 0 ◌==◌ per_uid 1000 (not_matched ∷ matched ∷ []) fresh).0
evaluate_condition-IsTracked_example =
    evaluate_condition-IsTracked 0 ◌==◌ per_uid 1000 (not_matched ∷ matched ∷ []) fresh
      per_uid-IsTracked

evaluate_condition-IsBounded_example :
    IsBounded (evaluate_condition 0 ◌==◌ per_uid 1001 (matched ∷ not_matched ∷ []) fresh).0
evaluate_condition-IsBounded_example =
    evaluate_condition-IsBounded 0 ◌==◌ per_uid 1001 (matched ∷ not_matched ∷ []) fresh
      (refl, omega arith)

met-run_example :
    (met_key 0 ◌==◌ (run wakelock 0 (true ∷ true ∷ false ∷ [])) 0 ≡ is_true)
    ↔ (0 < depth true 0 (true ∷ true ∷ false ∷ []))
unfolding get
met-run_example = met-run 0 ◌==◌ wakelock 0 (true ∷ true ∷ false ∷ []) wakelock-IsTracked refl
