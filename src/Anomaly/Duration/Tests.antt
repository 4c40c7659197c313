-- ===== src/Anomaly/Duration/Tests.antt =====
-- A tracker of two keys and its monitor.
use packages_modules_stats_d.Common.{ℕ, ◌≡◌, refl, some, Bool, true, false, [], nat_eq, arith}
use packages_modules_stats_d.Common.Dict.{get, put}
use packages_modules_stats_d.Alarm.{InternalAlarm}
use packages_modules_stats_d.Alarm.Heap.{IndexedPriorityQueue}
use packages_modules_stats_d.Alarm.Queue.{PriorityQueue, heap_queue}
use packages_modules_stats_d.Alarm.Monitor.{AlarmMonitor, start, add, pop_sooner_than}
use packages_modules_stats_d.Anomaly.Tracker
use packages_modules_stats_d.Anomaly.Tracker.Declare.{
  declare_anomaly, is_in_refractory_period, informed,
}
use packages_modules_stats_d.Anomaly.Tracker.{AnomalyTracker, Alert}
use packages_modules_stats_d.Anomaly.Duration.{
  DurationAnomalyTracker, alarm_eq, time_of, inform_fired,
}
use packages_modules_stats_d.Anomaly.Duration.Held.{holds, IsDistinct}
use packages_modules_stats_d.Anomaly.Duration.Mirrors.{Mirrors, set-Mirrors}
use packages_modules_stats_d.Anomaly.Duration.Calls.{TrackerCall, start_call, new_alarm}
use packages_modules_stats_d.Anomaly.Duration.Fired.{declared_for, refractory_after}
use packages_modules_stats_d.Anomaly.Duration.Delivery.{inform_fired-Mirrors}

abbrev queue : PriorityQueue (IndexedPriorityQueue InternalAlarm) InternalAlarm time_of
queue = heap_queue time_of

abbrev no_others : InternalAlarm → Bool
no_others a = false

abbrev monitor : AlarmMonitor (IndexedPriorityQueue InternalAlarm) ℕ
monitor = start queue 5

abbrev tracker : DurationAnomalyTracker ℕ
tracker = record {
  base =
      Tracker.init
        (record { num_buckets = 2; trigger_if_sum_gt = some 10; refractory_period_secs = some 60 });
  alarms = [];
}

new-Mirrors : Mirrors queue no_others tracker monitor
unfolding holds IsDistinct
new-Mirrors = record {
  valid = queue.init-IsValid;
  distinct = tt;
  apart = λ x o. refl;
  same = λ x. queue.contains-init x;
}

abbrev first_call : TrackerCall ℕ
first_call = start_call 77 3 5000000001

abbrev armed : AlarmMonitor (IndexedPriorityQueue InternalAlarm) ℕ
armed = add queue (some (new_alarm 77 5000000001)) monitor

abbrev armed_tracker : DurationAnomalyTracker ℕ
armed_tracker = record tracker { alarms = put tracker.alarms 3 (new_alarm 77 5000000001) }

armed-Mirrors : Mirrors queue no_others armed_tracker armed
unfolding holds get
armed-Mirrors =
    set-Mirrors queue no_others tracker monitor 3 (new_alarm 77 5000000001) new-Mirrors refl
      (omega arith) refl refl

inform_fired-Mirrors_example :
    (get (inform_fired (λ k. true) 7000000000 (pop_sooner_than queue 7 armed).0 armed_tracker).2 3
      ≡ some informed)
    × (is_in_refractory_period 60000000000 3
          (inform_fired
            (λ k. true)
            7000000000
            (pop_sooner_than queue 7 armed).0
            armed_tracker).0.base
        ≡ true)
unfolding get put declared_for refractory_after declare_anomaly Tracker.init
inform_fired-Mirrors_example = (
  (inform_fired-Mirrors queue no_others armed_tracker armed (λ k. true) 7 7000000000
        armed-Mirrors).2
      3,
  (inform_fired-Mirrors queue no_others armed_tracker armed (λ k. true) 7 7000000000
        armed-Mirrors).3
      3 60000000000,
)
