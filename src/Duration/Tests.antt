-- ===== src/Duration/Tests.antt =====
-- A tracker of numbers as keys, with no state values, at concrete events.
use packages_modules_stats_d.Common.{
  ℕ, ◌≡◌, ◌↔◌, refl, none, some, Bool, true, false, List, [], ◌∷◌, nat_eq, Eq, arith, ◌&&◌, ◌==◌,
  if◌then◌else◌,
}
use packages_modules_stats_d.Common.Int.{ℤ, pos, ◌+ℤ◌, ◌-ℤ◌, ltb_ℤ, leb_ℤ, pos_part}
use packages_modules_stats_d.Common.Dict.{get, put, erase}
use packages_modules_stats_d.Duration
use packages_modules_stats_d.Duration.{
  past_bucket_call, OringDurationTracker, is_empty, has_value, charge, insert_all, note_start,
  start_key, hit_guard_rail, note_stop, stop_started, stop_paused, stop_clock, drop_start,
  on_condition_changed,
}
use packages_modules_stats_d.Duration.Sliced
use packages_modules_stats_d.Duration.Flush.{
  flush_current_bucket, flush_entries, flush_entry, pass_buckets, open_bucket, num_buckets_forward,
  push_bucket, keys_of, duration_passes_threshold, get_current_bucket_end_time_ns,
}
use packages_modules_stats_d.Duration.Accounting.{recorded}
use packages_modules_stats_d.Duration.Recorded.{
  Event, key_started, key_stopped, condition_event, state_event, run, step, end_time, running_time,
  recorded-run,
}
use packages_modules_stats_d.Duration.Conserved.{flushed_time, duration_of}
use packages_modules_stats_d.Duration.Whole.{IsForward, flushed_time-flush_current_bucket}
use packages_modules_stats_d.Anomaly
use packages_modules_stats_d.Anomaly.Tracker.{AnomalyTracker}
use packages_modules_stats_d.Anomaly.Tracker.Declare.{is_in_refractory_period}
use packages_modules_stats_d.Duration.Predict.{
  predict_anomaly_timestamp_ns, predict_later, candidate, expired, future_bucket_end,
  is_in_refractory_period-predict,
}
use packages_modules_stats_d.Duration.Aligned.{flush_current_bucket-Contains}

abbrev same_values : List (ℕ × ℕ) → List (ℕ × ℕ) → Bool
same_values [] [] = true
same_values [] (b ∷ l) = false
same_values (a ∷ k) [] = false
same_values ((a, v) ∷ k) ((b, w) ∷ l) = a == b && v == w && same_values k l

same_values_iff : (k l : List (ℕ × ℕ)) → (same_values k l ≡ true) ↔ (k ≡ l)
same_values_iff [] [] = ground arith
same_values_iff [] (b ∷ l) = ground arith
same_values_iff (a ∷ k) [] = ground arith
same_values_iff ((a, v) ∷ k) ((b, w) ∷ l) = ground (arith, same_values_iff k l)

instance abbrev values_eq : Eq (List (ℕ × ℕ))
values_eq = record { beq = same_values; beq_iff = same_values_iff }

abbrev Tracker : Type 0
Tracker = OringDurationTracker ℕ ℕ (List (ℕ × ℕ))

abbrev screen : ℕ → List (ℕ × ℕ)
screen value = (29, value) ∷ []

abbrev new_tracker : Tracker
new_tracker = Duration.init 100 true false false (pos 0) (pos 0) 0 (screen 0)

-- Two overlapping starts, a pause of the condition, and a change of state.
abbrev events : List (ℤ × Event ℕ ℕ ℕ)
events =
    (pos 10, key_started 1 true 0 800)
    ∷ (pos 15, key_started 2 true 0 800)
    ∷ (pos 20, key_stopped 1 false)
    ∷ (pos 30, condition_event false)
    ∷ (pos 40, condition_event true)
    ∷ (pos 45, state_event 29 2)
    ∷ (pos 50, key_stopped 2 false)
    ∷ []

overlap_counts_once : recorded (run events new_tracker) (pos 60) (screen 0) ≡ pos 25
unfolding recorded run step note_start start_key hit_guard_rail note_stop stop_started stop_paused
    stop_clock drop_start on_condition_changed Sliced.on_state_changed Sliced.update_values is_empty
    has_value charge insert_all get put erase ◌+ℤ◌ ◌-ℤ◌
overlap_counts_once = refl

recorded-run_example :
    recorded (run events new_tracker) (end_time (pos 0) events) (screen 2)
    ≡ recorded new_tracker (pos 0) (screen 2) +ℤ running_time (pos 0) events new_tracker (screen 2)
recorded-run_example = recorded-run (pos 0) events new_tracker (screen 2)

abbrev running_tracker : Tracker
running_tracker = record new_tracker { started = (1, 1) ∷ []; last_start_time = pos 10 }

abbrev bucket_end : ℤ
bucket_end = get_current_bucket_end_time_ns running_tracker

running-IsForward :
    IsForward (if leb_ℤ bucket_end (pos 350) then bucket_end else pos 350) running_tracker
unfolding ◌+ℤ◌ duration_of get is_empty
running-IsForward = record { durations = λ k. omega arith; last_start = λ h. omega arith }

flushed_time-flush_current_bucket_example :
    flushed_time (flush_current_bucket (pos 350) none (pos 0) running_tracker []).1 (screen 0)
      +ℤ recorded
          (flush_current_bucket (pos 350) none (pos 0) running_tracker []).0
          (pos 350)
          (screen 0)
    ≡ flushed_time [] (screen 0) +ℤ recorded running_tracker (pos 350) (screen 0)
flushed_time-flush_current_bucket_example =
    flushed_time-flush_current_bucket (pos 350) (pos 0) running_tracker [] (screen 0)
      running-IsForward

flush_current_bucket-Contains_example :
    ltb_ℤ (pos 350) (
      get_current_bucket_end_time_ns
        (flush_current_bucket (pos 350) none (pos 0) running_tracker []).0)
    ≡ true
flush_current_bucket-Contains_example =
    (flush_current_bucket-Contains (pos 350) (pos 0) none running_tracker [] (omega arith)).1

abbrev alerted : AnomalyTracker ℕ ℕ
alerted =
    record (Anomaly.Tracker.init (record {
      num_buckets = 3;
      trigger_if_sum_gt = some 120;
      refractory_period_secs = some 60;
    })) { refractory_period_ends_sec = (7, 90) ∷ [] }

-- 120 ns are reached 120 ns after the start, in the next bucket.
predicted_without_refractory :
    predict_anomaly_timestamp_ns running_tracker alerted 8 (pos 10) ≡ pos 130
unfolding predict_anomaly_timestamp_ns predict_later candidate expired future_bucket_end
    Anomaly.Tracker.init Anomaly.Tracker.reset_storage Anomaly.Tracker.get_past_bucket_value
    Anomaly.Tracker.get_sum_over_past_buckets get ◌+ℤ◌ ◌-ℤ◌
predicted_without_refractory = refl

is_in_refractory_period-predict_example :
    is_in_refractory_period
      (pos_part (predict_anomaly_timestamp_ns running_tracker alerted 7 (pos 10)))
      7
      alerted
    ≡ false
is_in_refractory_period-predict_example =
    (is_in_refractory_period-predict running_tracker alerted 7 (pos 10)).1

abbrev two_states : Tracker
two_states = record new_tracker {
  state_values_key = screen 2;
  has_anomaly_trackers = true;
  state_key_duration_map =
      (screen 0, record { duration = pos 5; duration_full_bucket = pos 0 })
      ∷ (screen 2, record { duration = pos 7; duration_full_bucket = pos 0 })
      ∷ [];
}

-- The anomaly trackers are told 0 for the first state key, which has 5.
first_state_told_as_current :
    (flush_current_bucket (pos 100) none (pos 0) two_states []).0.anomaly_calls
    ≡ past_bucket_call (screen 2) (pos 7) (pos 0) ∷ past_bucket_call (screen 0) (pos 0) (pos 0) ∷ []
unfolding flush_current_bucket flush_entries flush_entry pass_buckets open_bucket
    num_buckets_forward push_bucket keys_of duration_passes_threshold is_empty get put ◌+ℤ◌ ◌-ℤ◌
first_state_told_as_current = refl
