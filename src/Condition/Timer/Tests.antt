-- ===== src/Condition/Timer/Tests.antt =====
-- Runs of the stopwatch, and the theorems at concrete inputs.
use packages_modules_stats_d.Common.{◌≡◌, refl, true, false, List, [], ◌∷◌}
use packages_modules_stats_d.Common.Int.{pos, ◌+ℤ◌, ◌-ℤ◌}
use packages_modules_stats_d.Condition.Timer.{
  ConditionTimer, init, new_bucket_start, on_condition_changed,
}
use packages_modules_stats_d.Condition.Timer.Conservation.{
  Call, changes, edges, running, final, reported, corrected, true_time, reported-init,
  corrected_lem,
}

-- True from 100, false at 160; the bucket edge at 150 is seen late, at 170.
abbrev late : List Call
late = changes true (pos 100) ∷ changes false (pos 160) ∷ edges (pos 170) (pos 150) ∷ []

abbrev started : ConditionTimer
started = record {
  timer_ns = pos 0;
  current_bucket_start_delay_ns = pos 0;
  last_condition_change_timestamp_ns = pos 100;
  condition = true;
}

-- The edge reports 50, and 10 belong to the next bucket.
late_edge :
    (new_bucket_start (pos 170) (pos 150) (on_condition_changed false (pos 160) started)).1
    ≡ record { duration_ns = pos 50; correction_ns = pos 20 }
unfolding new_bucket_start on_condition_changed ◌+ℤ◌ ◌-ℤ◌
late_edge = refl

reported-init_example :
    reported (init false (pos 0)) late +ℤ running (pos 200) (final (init false (pos 0)) late)
    ≡ true_time false (pos 0) late (pos 200)
reported-init_example = reported-init false (pos 0) (pos 200) late

corrected_example :
    corrected started late +ℤ pos 0 ≡ (final started late).current_bucket_start_delay_ns
corrected_example = corrected_lem started late
