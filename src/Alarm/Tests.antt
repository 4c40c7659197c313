-- ===== src/Alarm/Tests.antt =====
-- Alarms at concrete times.
use packages_modules_stats_d.Common.{ℕ, ◌+◌, ◌*◌, ◌≤◌, max, ◌≡◌, refl, arith, false, [], ◌∷◌}
use packages_modules_stats_d.Alarm.{
  AlarmConfig, AlarmTracker, find_next_alarm_sec, init, inform_alarms_fired, has,
}
use packages_modules_stats_d.Alarm.Schedule.{inform_alarms_fired-IsNext}

abbrev each_minute : AlarmConfig
each_minute = record { offset_millis = 5000; period_millis = 60000 }

abbrev tracker : AlarmTracker
tracker = init each_minute 100000 130000 7

next_minute : tracker.alarm_sec ≡ 165
unfolding init
next_minute = refl

-- A period of half a second: the next alarm after second 9 is at second 9.
half_second : find_next_alarm_sec (record { offset_millis = 0; period_millis = 500 }) 9 9 ≡ 9
unfolding find_next_alarm_sec
half_second = refl

-- A period of 1.5 seconds: the next alarm after second 1 is at second 1.
three_halves : find_next_alarm_sec (record { offset_millis = 0; period_millis = 1500 }) 0 1 ≡ 1
unfolding find_next_alarm_sec
three_halves = refl

inform_alarms_fired_example :
    ((k : ℕ) × ((inform_alarms_fired 165000000001 8 (7 ∷ 9 ∷ []) tracker).0.alarm_sec
        ≡ tracker.alarm_sec + k * 60))
    × (165000000001 + 1000000000
        ≤ (inform_alarms_fired 165000000001 8 (7 ∷ 9 ∷ []) tracker).0.alarm_sec * 1000000000)
    × ((inform_alarms_fired 165000000001 8 (7 ∷ 9 ∷ []) tracker).0.alarm_sec * 1000000000
        ≤ max
            (tracker.alarm_sec * 1000000000)
            (60 * 1000000000 + max 1000000000 (165000000001 + 999999999)))
    × ((inform_alarms_fired 165000000001 8 (7 ∷ 9 ∷ []) tracker).0.internal_alarm.address ≡ 8)
    × (has
          (inform_alarms_fired 165000000001 8 (7 ∷ 9 ∷ []) tracker).1
          tracker.internal_alarm.address
        ≡ false)
inform_alarms_fired_example =
    inform_alarms_fired-IsNext tracker 165000000001 8 60 (7 ∷ 9 ∷ []) (omega arith)
      (unfold init in refl) (unfold init in refl)
