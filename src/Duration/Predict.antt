-- ===== src/Duration/Predict.antt =====
-- predictAnomalyTimestampNs: when the alarm of a running duration is due. The key of the dimension, with
-- its state values, is `key`; the sums, past values and threshold of an anomaly tracker of durations are
-- whole nanoseconds, natural numbers, which the source converts from double to int64.
use packages_modules_stats_d.Common.{
  ℕ, zero, suc, ◌+◌, ◌*◌, ◌≡◌, refl, false, ltb, ◌==◌, if◌then◌else◌, Eq, arith, if_both,
  Option-cases, inl, inr,
}
use packages_modules_stats_d.Common.Int.{ℤ, pos, ◌+ℤ◌, ◌-ℤ◌, ◌≤ℤ◌, leb_ℤ, pos_part}
use packages_modules_stats_d.Common.Dict.{get}
use packages_modules_stats_d.Anomaly.Tracker.{
  whole_values, AnomalyTracker, or_zero, ns_per_sec, get_past_bucket_value,
  get_sum_over_past_buckets,
}
use packages_modules_stats_d.Anomaly.Tracker.Declare.{is_in_refractory_period}
use packages_modules_stats_d.Duration.{
  OringDurationTracker, get_current_state_key_duration, get_current_state_key_full_bucket_duration,
}
use packages_modules_stats_d.Duration.Flush.{get_current_bucket_end_time_ns}

-- std::max
abbrev pub max_ℤ : ℤ → ℤ → ℤ
max_ℤ a b = if leb_ℤ a b then b else a

module _ {EK : Type 0} ⦃k : Eq EK⦄ where
  abbrev pub get_anomaly_threshold : AnomalyTracker EK ℕ → ℤ
  get_anomaly_threshold tracker = pos (or_zero tracker.alert.trigger_if_sum_gt)

  abbrev pub get_refractory_period_ends_sec : AnomalyTracker EK ℕ → EK → ℕ
  get_refractory_period_ends_sec tracker key = or_zero (get tracker.refractory_period_ends_sec key)

module _ {K C SK : Type 0} ⦃s : Eq SK⦄ where
  -- The past durations of the current bucket.
  abbrev pub state_bucket_past : OringDurationTracker K C SK → ℤ
  state_bucket_past t =
      get_current_state_key_duration t +ℤ get_current_state_key_full_bucket_duration t

  unfoldable pub future_bucket_end : ℕ → OringDurationTracker K C SK → ℤ
  future_bucket_end i t = get_current_bucket_end_time_ns t +ℤ pos (i * t.bucket_size_ns)

module _ {K C SK EK : Type 0} ⦃s : Eq SK⦄ ⦃k : Eq EK⦄ where
  -- When the threshold is passed if the window still has `past_ns` at the start of a future bucket.
  unfoldable pub candidate : ℕ → ℤ → OringDurationTracker K C SK → AnomalyTracker EK ℕ → EK → ℤ
  candidate i past_ns t tracker key =
      max_ℤ
        (future_bucket_end i t -ℤ pos t.bucket_size_ns +ℤ get_anomaly_threshold tracker -ℤ past_ns)
        (pos (get_refractory_period_ends_sec tracker key * ns_per_sec))

  -- What leaves the window at the end of a future bucket.
  unfoldable pub expired : ℕ → ℤ → OringDurationTracker K C SK → AnomalyTracker EK ℕ → EK → ℤ
  expired i event_timestamp_ns t tracker key =
      let n = tracker.num_of_past_buckets in
      if ltb i n
      then pos (get_past_bucket_value tracker key (pos t.current_bucket_num -ℤ pos n +ℤ pos i))
      else if i == n
      then state_bucket_past t +ℤ (get_current_bucket_end_time_ns t -ℤ event_timestamp_ns)
      else pos 0

  -- The loop over the future buckets, from number `i` on, with the durations of the past window.
  unfoldable pub predict_later :
      ℕ → ℕ → ℤ → ℤ → OringDurationTracker K C SK → AnomalyTracker EK ℕ → EK → ℤ
  predict_later zero i event_timestamp_ns past_ns t tracker key =
      max_ℤ (event_timestamp_ns +ℤ get_anomaly_threshold tracker)
        (pos (get_refractory_period_ends_sec tracker key * ns_per_sec))
  predict_later (suc count) i event_timestamp_ns past_ns t tracker key =
      let same = predict_later count (suc i) event_timestamp_ns past_ns t tracker key in
      let moved = past_ns +ℤ pos t.bucket_size_ns -ℤ expired i event_timestamp_ns t tracker key in
      let later = predict_later count (suc i) event_timestamp_ns moved t tracker key in
      if leb_ℤ (candidate i past_ns t tracker key) (future_bucket_end i t)
      then candidate i past_ns t tracker key
      else if tracker.num_of_past_buckets == 0
      then same
      else later

  unfoldable pub predict_anomaly_timestamp_ns :
      OringDurationTracker K C SK → AnomalyTracker EK ℕ → EK → ℤ → ℤ
  predict_anomaly_timestamp_ns t tracker key event_timestamp_ns =
      let n = tracker.num_of_past_buckets in
      let current_end = get_current_bucket_end_time_ns t in
      let past_ns = state_bucket_past t +ℤ pos (get_sum_over_past_buckets tracker key) in
      let anomaly =
        max_ℤ (event_timestamp_ns +ℤ get_anomaly_threshold tracker -ℤ past_ns)
          (pos (get_refractory_period_ends_sec tracker key * ns_per_sec)) in
      let oldest = get_past_bucket_value tracker key (pos t.current_bucket_num -ℤ pos n) in
      let window =
        if ltb 0 n then past_ns -ℤ pos oldest +ℤ (current_end -ℤ event_timestamp_ns) else pos 0 in
      if leb_ℤ anomaly current_end
      then max_ℤ event_timestamp_ns anomaly
      else predict_later (n + 1) 1 event_timestamp_ns window t tracker key

-- `z` is not before `r`.
unfoldable pub IsAfter : ℤ → ℤ → Type 0
IsAfter r z = r ≤ℤ z

max_ℤ-right : (a b : ℤ) → IsAfter b (max_ℤ a b)
unfolding IsAfter
max_ℤ-right a b = ground arith

max_ℤ-keeps : (a b c : ℤ) → IsAfter c b → IsAfter c (max_ℤ a b)
unfolding IsAfter
max_ℤ-keeps a b c h = ground arith

module _ {EK : Type 0} ⦃k : Eq EK⦄ where
  abbrev refractory_end_ns : AnomalyTracker EK ℕ → EK → ℤ
  refractory_end_ns tracker key = pos (get_refractory_period_ends_sec tracker key * ns_per_sec)

module _ {K C SK EK : Type 0} ⦃s : Eq SK⦄ ⦃k : Eq EK⦄ where
  candidate-IsAfter :
      (i : ℕ) (past : ℤ) (t : OringDurationTracker K C SK) (tracker : AnomalyTracker EK ℕ)
      (key : EK)
      → IsAfter (refractory_end_ns tracker key) (candidate i past t tracker key)
  unfolding candidate
  candidate-IsAfter i past t tracker key =
      max_ℤ-right
        (future_bucket_end i t -ℤ pos t.bucket_size_ns +ℤ get_anomaly_threshold tracker -ℤ past)
        (refractory_end_ns tracker key)

  predict_later-IsAfter :
      (count i : ℕ) (event past : ℤ) (t : OringDurationTracker K C SK)
      (tracker : AnomalyTracker EK ℕ) (key : EK)
      → IsAfter (refractory_end_ns tracker key) (predict_later count i event past t tracker key)
  unfolding predict_later
  predict_later-IsAfter zero i event past t tracker key =
      max_ℤ-right (event +ℤ get_anomaly_threshold tracker) (refractory_end_ns tracker key)
  predict_later-IsAfter (suc count) i event past t tracker key =
      let moved = past +ℤ pos t.bucket_size_ns -ℤ expired i event t tracker key in
      let same = predict_later count (suc i) event past t tracker key in
      let later = predict_later count (suc i) event moved t tracker key in
      if_both (IsAfter (refractory_end_ns tracker key))
        (leb_ℤ (candidate i past t tracker key) (future_bucket_end i t))
        (candidate i past t tracker key) (if tracker.num_of_past_buckets == 0 then same else later)
        (λ h. candidate-IsAfter i past t tracker key)
        (λ h.
          if_both (IsAfter (refractory_end_ns tracker key)) (tracker.num_of_past_buckets == 0) same
            later (λ g. predict_later-IsAfter count (suc i) event past t tracker key)
            (λ g. predict_later-IsAfter count (suc i) event moved t tracker key))

  predict-IsAfter :
      (t : OringDurationTracker K C SK) (tracker : AnomalyTracker EK ℕ) (key : EK) (event : ℤ)
      → IsAfter (refractory_end_ns tracker key) (predict_anomaly_timestamp_ns t tracker key event)
  unfolding predict_anomaly_timestamp_ns
  predict-IsAfter t tracker key event =
      let n = tracker.num_of_past_buckets in
      let current_end = get_current_bucket_end_time_ns t in
      let past = state_bucket_past t +ℤ pos (get_sum_over_past_buckets tracker key) in
      let usual = event +ℤ get_anomaly_threshold tracker -ℤ past in
      let anomaly = max_ℤ usual (refractory_end_ns tracker key) in
      let oldest = get_past_bucket_value tracker key (pos t.current_bucket_num -ℤ pos n) in
      let window = if ltb 0 n then past -ℤ pos oldest +ℤ (current_end -ℤ event) else pos 0 in
      if_both (IsAfter (refractory_end_ns tracker key)) (leb_ℤ anomaly current_end)
        (max_ℤ event anomaly) (predict_later (n + 1) 1 event window t tracker key)
        (λ h.
          max_ℤ-keeps event anomaly (refractory_end_ns tracker key)
            (max_ℤ-right usual (refractory_end_ns tracker key)))
        (λ h. predict_later-IsAfter (n + 1) 1 event window t tracker key)

  -- The predicted time of an anomaly is not negative and never in the key's refractory period, so
  -- startAlarm, which sets no alarm in it, takes the prediction.
  pub is_in_refractory_period-predict :
      (t : OringDurationTracker K C SK) (tracker : AnomalyTracker EK ℕ) (key : EK)
      (event_timestamp_ns : ℤ)
      → let predicted = predict_anomaly_timestamp_ns t tracker key event_timestamp_ns in
        (pos 0 ≤ℤ predicted) × (is_in_refractory_period (pos_part predicted) key tracker ≡ false)
  unfolding is_in_refractory_period IsAfter
  is_in_refractory_period-predict t tracker key event =
      let late = predict-IsAfter t tracker key event in
      (
        omega (arith, late),
        elim (Option-cases (get tracker.refractory_period_ends_sec key)) [
          | inl h ↦ rw (is_in_refractory_period, h) refl
          | inr (end_sec, h) ↦ ground (arith, late)
        ],
      )
