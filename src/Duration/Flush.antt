-- ===== src/Duration/Flush.antt =====
-- flushCurrentBucket and flushIfNeeded: the durations of the bucket go to the output and to the
-- anomaly trackers. The output is that of one dimension in what, by state key. The number of buckets
-- forward is a natural number, without the bound of int.
use packages_modules_stats_d.Common.{
  ℕ, zero, suc, ◌+◌, ◌-◌, ◌*◌, ◌/◌, Option, none, some, Bool, true, false, ◌&&◌, ◌||◌, not, List,
  [], ◌∷◌, ◌++◌, ltb, leb, if◌then◌else◌, Eq,
}
use packages_modules_stats_d.Common.Int.{ℤ, pos, ◌+ℤ◌, ◌-ℤ◌, leb_ℤ, ltb_ℤ, pos_part}
use packages_modules_stats_d.Common.Dict.{Dict, get, put}
use packages_modules_stats_d.Duration.{
  OringDurationTracker, DurationValues, past_bucket_call, is_empty, values_or_zero, charge,
  get_current_state_key_full_bucket_duration,
}

pub record DurationBucket : Type 0 where
  pub bucket_start_ns : ℤ
  pub bucket_end_ns : ℤ
  pub bucket_duration : ℤ
  pub condition_true_ns : ℤ

pub data UploadThreshold : Type 0 where
  lt_int gt_int lte_int gte_int : ℤ → UploadThreshold
  other_comparison : UploadThreshold

abbrev pub compares : UploadThreshold → ℤ → Bool
compares (lt_int n) d = ltb_ℤ d n
compares (gt_int n) d = ltb_ℤ n d
compares (lte_int n) d = leb_ℤ d n
compares (gte_int n) d = leb_ℤ n d
compares other_comparison d = false

unfoldable pub duration_passes_threshold : Option UploadThreshold → ℤ → Bool
duration_passes_threshold threshold d =
    if leb_ℤ d (pos 0) then false else elim threshold [ none ↦ true | some u ↦ compares u d ]

module _ {SK : Type 0} ⦃s : Eq SK⦄ where
  -- (*output)[key].push_back(bucket)
  unfoldable pub push_bucket :
      Dict SK (List DurationBucket) → SK → DurationBucket → Dict SK (List DurationBucket)
  push_bucket output key bucket =
      put output key (elim (get output key) [ none ↦ bucket ∷ [] | some l ↦ l ++ (bucket ∷ []) ])

  unfoldable pub keys_of : {V : Type 0} → Dict SK V → List SK
  keys_of [] = []
  keys_of ((k, v) ∷ m) = k ∷ keys_of m

module _ {K C SK : Type 0} ⦃s : Eq SK⦄ where
  abbrev pub get_current_bucket_end_time_ns : OringDurationTracker K C SK → ℤ
  get_current_bucket_end_time_ns t =
      t.start_time_ns +ℤ pos ((t.current_bucket_num + 1) * t.bucket_size_ns)

  -- The body of the loop over mStateKeyDurationMap.
  unfoldable pub flush_entry :
      Bool
      → ℤ
      → Option UploadThreshold
      → ℤ
      → SK
      → OringDurationTracker K C SK
      → Dict SK (List DurationBucket)
      → OringDurationTracker K C SK × Dict SK (List DurationBucket)
  flush_entry full end_ns threshold condition_true_ns key t output =
      let v = values_or_zero (get t.state_key_duration_map key) in
      let summed : DurationValues = record {
        duration = v.duration;
        duration_full_bucket = v.duration_full_bucket +ℤ v.duration;
      } in
      let m = put t.state_key_duration_map key summed in
      let value =
        get_current_state_key_full_bucket_duration (record t { state_key_duration_map = m }) in
      let bucket : DurationBucket = record {
        bucket_start_ns = t.current_bucket_start_time_ns;
        bucket_end_ns = end_ns;
        bucket_duration = v.duration;
        condition_true_ns = condition_true_ns;
      } in
      (
        record t {
          state_key_duration_map = put m key (record summed { duration = pos 0 });
          anomaly_calls =
              if full
              then past_bucket_call key value (pos t.current_bucket_num) ∷ t.anomaly_calls
              else t.anomaly_calls;
        },
        (if duration_passes_threshold threshold v.duration
            then push_bucket output key bucket
            else output),
      )

  unfoldable pub flush_entries :
      Bool
      → ℤ
      → Option UploadThreshold
      → ℤ
      → List SK
      → OringDurationTracker K C SK
      → Dict SK (List DurationBucket)
      → OringDurationTracker K C SK × Dict SK (List DurationBucket)
  flush_entries full end_ns threshold condition_true_ns [] t output = (t, output)
  flush_entries full end_ns threshold condition_true_ns (key ∷ keys) t output =
      let (u, o) = flush_entry full end_ns threshold condition_true_ns key t output in
      flush_entries full end_ns threshold condition_true_ns keys u o

  -- The loop over the buckets after the current one, from the i-th on.
  unfoldable pub fill_buckets :
      ℕ
      → ℕ
      → ℤ
      → OringDurationTracker K C SK
      → Dict SK (List DurationBucket)
      → OringDurationTracker K C SK × Dict SK (List DurationBucket)
  fill_buckets zero i full_end t output = (t, output)
  fill_buckets (suc count) i full_end t output =
      let begin = full_end +ℤ pos (t.bucket_size_ns * (i - 1)) in
      let info : DurationBucket = record {
        bucket_start_ns = begin;
        bucket_end_ns = begin +ℤ pos t.bucket_size_ns;
        bucket_duration = pos t.bucket_size_ns;
        condition_true_ns = pos 0;
      } in
      fill_buckets count (suc i) full_end
        (record t {
          anomaly_calls =
              past_bucket_call t.state_values_key (pos t.bucket_size_ns)
                (pos (t.current_bucket_num + i))
              ∷ t.anomaly_calls;
        })
        (push_bucket output t.state_values_key info)

  -- Buckets that have passed since the current one began.
  unfoldable pub num_buckets_forward : ℤ → OringDurationTracker K C SK → ℕ
  num_buckets_forward event_time_ns t =
      let full_end = get_current_bucket_end_time_ns t in
      if leb_ℤ full_end event_time_ns
      then 1 + pos_part (event_time_ns -ℤ full_end) / t.bucket_size_ns
      else 0

  -- The buckets between the current one and that of the event.
  unfoldable pub pass_buckets :
      ℕ
      → ℤ
      → OringDurationTracker K C SK
      → Dict SK (List DurationBucket)
      → OringDurationTracker K C SK × Dict SK (List DurationBucket)
  pass_buckets forward full_end t output =
      if not (is_empty t.started)
      then fill_buckets (forward - 1) 1 full_end t output
      else if leb 2 forward
      then (
        record t {
          anomaly_calls =
              past_bucket_call t.state_values_key (pos 0) (pos (t.current_bucket_num + forward - 1))
              ∷ t.anomaly_calls;
        },
        output,
      )
      else (t, output)

  -- The bucket of the event becomes the current one.
  unfoldable pub open_bucket : ℕ → ℤ → ℤ → OringDurationTracker K C SK → OringDurationTracker K C SK
  open_bucket forward full_end event_time_ns t =
      let begin =
        if ltb 0 forward
        then full_end +ℤ pos ((forward - 1) * t.bucket_size_ns)
        else event_time_ns in
      record t {
        current_bucket_start_time_ns = begin;
        current_bucket_num = t.current_bucket_num + forward;
        last_start_time = begin;
        has_hit_guardrail = false;
      }

  unfoldable pub flush_current_bucket :
      ℤ
      → Option UploadThreshold
      → ℤ
      → OringDurationTracker K C SK
      → Dict SK (List DurationBucket)
      → OringDurationTracker K C SK × Dict SK (List DurationBucket) × Bool
  flush_current_bucket event_time_ns threshold condition_true_ns t output =
      let full_end = get_current_bucket_end_time_ns t in
      let full = leb_ℤ full_end event_time_ns in
      let forward = num_buckets_forward event_time_ns t in
      let end_ns = if full then full_end else event_time_ns in
      let charged = if is_empty t.started then t else charge end_ns t in
      let (flushed, o) =
        flush_entries full end_ns threshold condition_true_ns
          (keys_of charged.state_key_duration_map) charged output in
      let cleared =
        if full || not t.has_anomaly_trackers
        then record flushed { state_key_duration_map = [] }
        else flushed in
      let (passed, p) = pass_buckets forward full_end cleared o in
      (
        open_bucket forward full_end event_time_ns passed,
        p,
        is_empty t.started && is_empty t.paused && (full || not t.has_anomaly_trackers),
      )

  unfoldable pub flush_if_needed :
      ℤ
      → Option UploadThreshold
      → OringDurationTracker K C SK
      → Dict SK (List DurationBucket)
      → OringDurationTracker K C SK × Dict SK (List DurationBucket) × Bool
  flush_if_needed event_time_ns threshold t output =
      if ltb_ℤ event_time_ns (get_current_bucket_end_time_ns t)
      then (t, output, false)
      else flush_current_bucket event_time_ns threshold (pos 0) t output
