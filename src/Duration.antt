-- ===== src/Duration.antt =====
-- statsd/src/metrics/duration_helper/OringDurationTracker.h and .cpp, with what they use of
-- DurationTracker.h: the time during which some event of a dimension is running, for each combination
-- of state values. Timestamps and durations are integers, without the bounds of int64; counts of
-- starts are natural numbers, without the bound of int. The calls of the anomaly trackers are a log,
-- the latest first. `query` is the condition wizard's answer for a condition key.
pub mod Sliced
pub mod Flush
pub mod Conserved
pub mod Kept
pub mod Sums
pub mod Whole
pub mod Aligned
pub mod Predict
pub mod Accounting
pub mod Events
pub mod Recorded
mod Tests
use packages_modules_stats_d.Common.{
  ℕ, suc, ◌+◌, ◌-◌, ◌<◌, Option, none, some, Bool, true, false, ◌&&◌, ◌||◌, not, List, [], ◌∷◌,
  length, ltb, leb, ◌==◌, if◌then◌else◌, Eq,
}
use packages_modules_stats_d.Common.Int.{ℤ, pos, ◌+ℤ◌, ◌-ℤ◌}
use packages_modules_stats_d.Common.Dict.{Dict, get, put, erase}

pub record DurationValues : Type 0 where
  pub duration : ℤ
  pub duration_full_bucket : ℤ

-- A call of the anomaly trackers of a dimension.
pub data AnomalyCall (SK : Type 0) : Type 0 where
  start_alarm_call : ℤ → AnomalyCall SK
  stop_alarm_call : ℤ → AnomalyCall SK
  detect_call : ℤ → ℤ → ℤ → AnomalyCall SK
  past_bucket_call : SK → ℤ → ℤ → AnomalyCall SK

pub record OringDurationTracker (K C SK : Type 0) : Type 0 where
  pub bucket_size_ns : ℕ
  pub nested : Bool
  pub condition_sliced : Bool
  pub has_anomaly_trackers : Bool
  pub start_time_ns : ℤ
  pub current_bucket_start_time_ns : ℤ
  pub current_bucket_num : ℕ
  pub state_values_key : SK
  pub state_key_duration_map : Dict SK DurationValues
  pub has_hit_guardrail : Bool
  pub started : Dict K ℕ
  pub paused : Dict K ℕ
  pub last_start_time : ℤ
  pub condition_key_map : Dict K C
  pub anomaly_calls : List (AnomalyCall SK)

abbrev pub dimension_key_size_soft_limit : ℕ
dimension_key_size_soft_limit = 500

module _ {A : Type 0} where
  unfoldable pub is_empty : List A → Bool
  is_empty [] = true
  is_empty (a ∷ l) = false

  unfoldable pub has_value : Option A → Bool
  has_value none = false
  has_value (some a) = true

-- Whether the key leaves the map, of `count` starts.
abbrev pub leaves : Bool → Bool → ℕ → Bool
leaves stop_all nested count = stop_all || not nested || count - 1 == 0

abbrev pub values_or_zero : Option DurationValues → DurationValues
values_or_zero none = record { duration = pos 0; duration_full_bucket = pos 0 }
values_or_zero (some v) = v

-- m[key]++
module _ {K : Type 0} ⦃e : Eq K⦄ where
  abbrev pub increment : Dict K ℕ → K → Dict K ℕ
  increment m key = put m key (elim (get m key) [ none ↦ 1 | some n ↦ suc n ])

  -- m.insert of every entry: a key that is there keeps its value.
  unfoldable pub insert_all : {V : Type 0} → Dict K V → Dict K V → Dict K V
  insert_all [] m = m
  insert_all ((k, v) ∷ entries) m =
      insert_all entries (if has_value (get m k) then m else put m k v)

module _ {K C SK : Type 0} where
  abbrev pub init : ℕ → Bool → Bool → Bool → ℤ → ℤ → ℕ → SK → OringDurationTracker K C SK
  init bucket_size_ns nested condition_sliced has_anomaly_trackers start_time_ns
        current_bucket_start_ns current_bucket_num state_values_key =
      record {
        bucket_size_ns = bucket_size_ns;
        nested = nested;
        condition_sliced = condition_sliced;
        has_anomaly_trackers = has_anomaly_trackers;
        start_time_ns = start_time_ns;
        current_bucket_start_time_ns = current_bucket_start_ns;
        current_bucket_num = current_bucket_num;
        state_values_key = state_values_key;
        state_key_duration_map = [];
        has_hit_guardrail = false;
        started = [];
        paused = [];
        last_start_time = pos 0;
        condition_key_map = [];
        anomaly_calls = [];
      }

  abbrev pub has_started_duration : OringDurationTracker K C SK → Bool
  has_started_duration t = not (is_empty t.started)

  abbrev pub has_accumulated_duration : OringDurationTracker K C SK → Bool
  has_accumulated_duration t =
      not (is_empty t.started) || not (is_empty t.paused) || not (is_empty t.state_key_duration_map)

module _ {K C SK : Type 0} ⦃s : Eq SK⦄ where
  abbrev pub get_current_state_key_duration : OringDurationTracker K C SK → ℤ
  get_current_state_key_duration t =
      (values_or_zero (get t.state_key_duration_map t.state_values_key)).duration

  abbrev pub get_current_state_key_full_bucket_duration : OringDurationTracker K C SK → ℤ
  get_current_state_key_full_bucket_duration t =
      (values_or_zero (get t.state_key_duration_map t.state_values_key)).duration_full_bucket

  -- The time since the last start goes to the current state key.
  unfoldable pub charge : ℤ → OringDurationTracker K C SK → OringDurationTracker K C SK
  charge timestamp t =
      let v = values_or_zero (get t.state_key_duration_map t.state_values_key) in
      record t {
        state_key_duration_map =
            put t.state_key_duration_map t.state_values_key
              (record v { duration = v.duration +ℤ (timestamp -ℤ t.last_start_time) });
      }

  -- detectAndDeclareAnomaly on the current bucket
  abbrev pub detect : ℤ → OringDurationTracker K C SK → OringDurationTracker K C SK
  detect timestamp t = record t {
    anomaly_calls =
        detect_call timestamp (pos t.current_bucket_num)
          (get_current_state_key_duration t +ℤ get_current_state_key_full_bucket_duration t)
        ∷ t.anomaly_calls;
  }

  abbrev pub stop_alarms : ℤ → OringDurationTracker K C SK → OringDurationTracker K C SK
  stop_alarms timestamp t = record t { anomaly_calls = stop_alarm_call timestamp ∷ t.anomaly_calls }

  abbrev pub start_alarms : ℤ → OringDurationTracker K C SK → OringDurationTracker K C SK
  start_alarms timestamp t = record t {
    anomaly_calls = start_alarm_call timestamp ∷ t.anomaly_calls;
  }

  -- The clock stops when no key is left.
  unfoldable pub stop_clock : ℤ → OringDurationTracker K C SK → OringDurationTracker K C SK
  stop_clock timestamp t = if is_empty t.started then detect timestamp (charge timestamp t) else t

  -- The last lines of noteStop, onSlicedConditionMayChange and onConditionChanged.
  abbrev pub stop_if_empty : ℤ → OringDurationTracker K C SK → OringDurationTracker K C SK
  stop_if_empty timestamp t = if is_empty t.started then stop_alarms timestamp t else t

module _ {K C SK : Type 0} ⦃e : Eq K⦄ ⦃s : Eq SK⦄ where
  unfoldable pub hit_guard_rail :
      K → ℕ → OringDurationTracker K C SK → OringDurationTracker K C SK × Bool
  hit_guard_rail new_key limit t =
      let size = length t.condition_key_map in
      if has_value (get t.condition_key_map new_key)
      then (t, false)
      else if leb dimension_key_size_soft_limit size && ltb limit (size + 1)
      then (record t { has_hit_guardrail = true }, true)
      else (t, false)

  -- The first start records its time.
  unfoldable pub start_key : K → ℤ → OringDurationTracker K C SK → OringDurationTracker K C SK
  start_key key event_time t =
      let first = start_alarms event_time (record t { last_start_time = event_time }) in
      let u = if is_empty t.started then first else t in
      record u { started = increment t.started key }

  unfoldable pub note_start :
      K → Bool → ℤ → C → ℕ → OringDurationTracker K C SK → OringDurationTracker K C SK
  note_start key condition event_time condition_key limit t =
      let (guarded, hit) = hit_guard_rail key limit t in
      let u =
        if condition
        then start_key key event_time t
        else record t { paused = increment t.paused key } in
      if hit
      then guarded
      else if t.condition_sliced && not (has_value (get t.condition_key_map key))
      then record u { condition_key_map = put t.condition_key_map key condition_key }
      else u

  unfoldable pub drop_start :
      K → Bool → ℕ → OringDurationTracker K C SK → OringDurationTracker K C SK
  drop_start key stop_all count t =
      if leaves stop_all t.nested count
      then record t {
        started = erase t.started key;
        condition_key_map = erase t.condition_key_map key;
      }
      else record t { started = put t.started key (count - 1) }

  unfoldable pub stop_started :
      K → ℤ → Bool → OringDurationTracker K C SK → OringDurationTracker K C SK
  stop_started key timestamp stop_all t = elim (get t.started key) [
    | none ↦ t
    | some count ↦ stop_clock timestamp (drop_start key stop_all count t)
  ]

  unfoldable pub stop_paused : K → Bool → OringDurationTracker K C SK → OringDurationTracker K C SK
  stop_paused key stop_all t = elim (get t.paused key) [
    | none ↦ t
    | some count ↦
        if leaves stop_all t.nested count
        then record t {
          paused = erase t.paused key;
          condition_key_map = erase t.condition_key_map key;
        }
        else record t { paused = put t.paused key (count - 1) }
  ]

  unfoldable pub note_stop :
      K → ℤ → Bool → OringDurationTracker K C SK → OringDurationTracker K C SK
  note_stop key timestamp stop_all t =
      stop_if_empty timestamp (stop_paused key stop_all (stop_started key timestamp stop_all t))

  unfoldable pub note_stop_all : ℤ → OringDurationTracker K C SK → OringDurationTracker K C SK
  note_stop_all timestamp t =
      let u = if is_empty t.started then t else detect timestamp (charge timestamp t) in
      record (stop_alarms timestamp u) { started = []; paused = []; condition_key_map = [] }

  unfoldable pub on_condition_changed :
      Bool → ℤ → OringDurationTracker K C SK → OringDurationTracker K C SK
  on_condition_changed true timestamp t =
      let first = start_alarms timestamp (record t { last_start_time = timestamp }) in
      let u = if is_empty t.started then first else t in
      stop_if_empty timestamp (
        if is_empty t.paused
        then t
        else record u { started = insert_all t.paused t.started; paused = [] })
  on_condition_changed false timestamp t =
      let charged = charge timestamp t in
      stop_if_empty timestamp (
        if is_empty t.started
        then t
        else detect timestamp
            (record charged { started = []; paused = insert_all t.started t.paused }))
