-- ===== src/Condition/Timer.antt =====
-- statsd/src/condition/ConditionTimer.h: the stopwatch that times how long a condition is true.
-- Timestamps are `int64_t` nanoseconds, here integers: their range is not modelled.
pub mod Conservation
pub mod Tests
use packages_modules_stats_d.Common.{Bool, same, if◌then◌else◌}
use packages_modules_stats_d.Common.Int.{ℤ, pos, ◌+ℤ◌, ◌-ℤ◌, ltb_ℤ, leb_ℤ, neg_ℤ}

pub record ConditionTimer : Type 0 where
  pub timer_ns : ℤ
  pub current_bucket_start_delay_ns : ℤ
  pub last_condition_change_timestamp_ns : ℤ
  pub condition : Bool

pub record ConditionDurationInfo : Type 0 where
  pub duration_ns : ℤ
  pub correction_ns : ℤ

-- ConditionTimer(initCondition, bucketStartNs)
unfoldable pub init : Bool → ℤ → ConditionTimer
init init_condition bucket_start_ns = record {
  timer_ns = pos 0;
  current_bucket_start_delay_ns = pos 0;
  last_condition_change_timestamp_ns = if init_condition then bucket_start_ns else pos 0;
  condition = init_condition;
}

-- std::max(eventTimeNs - nextBucketStartNs, 0)
unfoldable pub bucket_end_delay : ℤ → ℤ → ℤ
bucket_end_delay event_time_ns next_bucket_start_ns =
    let d = event_time_ns -ℤ next_bucket_start_ns in if ltb_ℤ d (pos 0) then pos 0 else d

-- The first half of newBucketStart: the timer is cut at the bucket's edge, and the correction is
-- the negated start delay, plus the end delay where the condition was true at the edge.
unfoldable pub cut_at_edge : ℤ → ℤ → ConditionTimer → ConditionTimer × ℤ
cut_at_edge end_delay next t =
    let correction = neg_ℤ t.current_bucket_start_delay_ns in
    let last = t.last_condition_change_timestamp_ns in
    if t.condition
    then (if leb_ℤ last next
        then (
          record t {
            timer_ns = t.timer_ns +ℤ (next -ℤ last);
            last_condition_change_timestamp_ns = next;
            current_bucket_start_delay_ns = end_delay;
          },
          correction +ℤ end_delay,
        )
        else (record t { current_bucket_start_delay_ns = pos 0 }, correction))
    else if ltb_ℤ next last
    then (
      record t {
        timer_ns = t.timer_ns -ℤ (last -ℤ next);
        current_bucket_start_delay_ns = end_delay;
      },
      correction +ℤ end_delay,
    )
    else (record t { current_bucket_start_delay_ns = pos 0 }, correction)

-- The second half: the bucket's duration is handed out, and what the condition stayed true beyond
-- the edge opens the next bucket.
unfoldable pub open_next : ℤ → ConditionTimer → ConditionTimer
open_next next t = record t {
  timer_ns =
      if t.condition
      then pos 0
      else if ltb_ℤ next t.last_condition_change_timestamp_ns
      then t.last_condition_change_timestamp_ns -ℤ next
      else pos 0;
}

unfoldable pub new_bucket_start : ℤ → ℤ → ConditionTimer → ConditionTimer × ConditionDurationInfo
unfolding bucket_end_delay cut_at_edge open_next
new_bucket_start event_time_ns next_bucket_start_ns t =
    let end_delay = bucket_end_delay event_time_ns next_bucket_start_ns in
    let (cut, correction) = cut_at_edge end_delay next_bucket_start_ns t in
    (
      open_next next_bucket_start_ns cut,
      record { duration_ns = cut.timer_ns; correction_ns = correction },
    )

unfoldable pub on_condition_changed : Bool → ℤ → ConditionTimer → ConditionTimer
on_condition_changed new_condition timestamp_ns t =
    if same new_condition t.condition then t else record t {
      condition = new_condition;
      timer_ns =
          if new_condition
          then t.timer_ns
          else t.timer_ns +ℤ (timestamp_ns -ℤ t.last_condition_change_timestamp_ns);
      last_condition_change_timestamp_ns = timestamp_ns;
    }
