-- ===== src/Anomaly/Tracker/Declare.antt =====
-- detectAnomaly, declareAnomaly and the refractory period of AnomalyTracker.cpp. The calls of
-- stats_write, of the subscribers and of StatsdStats are output; `rand()` is the argument `fate`,
-- true where it lets the alert inform.
use packages_modules_stats_d.Common.{
  ℕ, ◌+◌, ◌-◌, ◌*◌, ◌/◌, ◌%◌, ◌^◌, Option, none, some, Bool, false, ltb, if◌then◌else◌, Eq,
}
use packages_modules_stats_d.Common.Int.{ℤ, pos, ◌+ℤ◌, ◌-ℤ◌, ltb_ℤ}
use packages_modules_stats_d.Common.Dict.{get, put}
use packages_modules_stats_d.Anomaly.Tracker.{
  Values, AnomalyTracker, ns_per_sec, advance_most_recent_bucket_to, get_sum_over_past_buckets,
}

-- What declareAnomaly did: nothing in the refractory period, written to the log only, or informed.
pub data Declared : Type 0 where
  skipped logged informed : Declared

abbrev pub exceeds : {V : Type 0} → ⦃values : Values V⦄ → Option V → V → Bool
exceeds none v = false
exceeds ⦃values⦄ (some threshold) v = values.above v threshold

-- Seconds, rounded up, plus the period, in a uint32_t.
abbrev pub refractory_end : ℕ → ℕ → ℕ
refractory_end timestamp_ns period =
    ((timestamp_ns + ns_per_sec - 1) / ns_per_sec + period) % 2 ^ 32

module _ {K V : Type 0} ⦃e : Eq K⦄ ⦃values : Values V⦄ where
  -- The advance of detectAnomaly to the bucket before the current one.
  unfoldable pub catch_up : ℤ → AnomalyTracker K V → AnomalyTracker K V
  catch_up current_bucket_num t =
      if ltb_ℤ (t.most_recent_bucket_num +ℤ pos 1) current_bucket_num
      then advance_most_recent_bucket_to (current_bucket_num -ℤ pos 1) t
      else t

  unfoldable pub detect_anomaly : ℤ → K → V → AnomalyTracker K V → AnomalyTracker K V × Bool
  unfolding catch_up
  detect_anomaly current_bucket_num key current_bucket_value t =
      let u = catch_up current_bucket_num t in
      (
        u,
        exceeds u.alert.trigger_if_sum_gt
            (values.plus (get_sum_over_past_buckets u key) current_bucket_value),
      )

module _ {K V : Type 0} ⦃e : Eq K⦄ where
  unfoldable pub is_in_refractory_period : ℕ → K → AnomalyTracker K V → Bool
  is_in_refractory_period timestamp_ns key t = elim (get t.refractory_period_ends_sec key) [
    | none ↦ false
    | some end_sec ↦ ltb timestamp_ns (end_sec * ns_per_sec)
  ]

  unfoldable pub start_refractory_period : ℕ → K → AnomalyTracker K V → AnomalyTracker K V
  start_refractory_period timestamp_ns key t = elim t.alert.refractory_period_secs [
    | none ↦ t
    | some period ↦ record t {
      refractory_period_ends_sec =
          put t.refractory_period_ends_sec key (refractory_end timestamp_ns period);
    }
  ]

  unfoldable pub declare_anomaly : Bool → ℕ → K → AnomalyTracker K V → AnomalyTracker K V × Declared
  unfolding is_in_refractory_period start_refractory_period
  declare_anomaly fate timestamp_ns key t =
      if is_in_refractory_period timestamp_ns key t
      then (t, skipped)
      else if fate
      then (start_refractory_period timestamp_ns key t, informed)
      else (t, logged)

module _ {K V : Type 0} ⦃e : Eq K⦄ ⦃values : Values V⦄ where
  unfoldable pub detect_and_declare_anomaly :
      Bool → ℕ → ℤ → K → V → AnomalyTracker K V → AnomalyTracker K V × Option Declared
  unfolding detect_anomaly declare_anomaly
  detect_and_declare_anomaly fate timestamp_ns current_bucket_num key value t =
      let (u, found) = detect_anomaly current_bucket_num key value t in
      let (v, done) = declare_anomaly fate timestamp_ns key u in
      if found then (v, some done) else (u, none)
