-- ===== src/Alarm.antt =====
-- statsd/src/anomaly/AlarmTracker.h and .cpp: the times of a periodic alarm. Times are not negative and
-- the period is positive, as metrics_manager_util.cpp demands of a config, so they are natural numbers
-- and the division of int64 is that of numbers.
pub mod Schedule
pub mod Heap
pub mod Queue
pub mod Monitor
pub mod Tests
use packages_modules_stats_d.Common.{
  ℕ, ◌+◌, ◌-◌, ◌*◌, ◌/◌, ◌%◌, ◌^◌, Bool, true, false, ltb, if◌then◌else◌, List, [], ◌∷◌, ◌==◌, ◌||◌,
}

abbrev pub ms_per_sec : ℕ
ms_per_sec = 1000

-- What the tracker reads of its Alarm.
pub record AlarmConfig : Type 0 where
  pub offset_millis : ℕ
  pub period_millis : ℕ

-- The object an InternalAlarm pointer points to; `address` tells objects apart.
pub record InternalAlarm : Type 0 where
  pub address : ℕ
  pub timestamp_sec : ℕ

pub record AlarmTracker : Type 0 where
  pub alarm_config : AlarmConfig
  pub alarm_sec : ℕ
  pub internal_alarm : InternalAlarm

unfoldable pub find_next_alarm_sec : AlarmConfig → ℕ → ℕ → ℕ
find_next_alarm_sec config alarm_sec current_time_sec =
    let periods_forward = (current_time_sec - alarm_sec) * ms_per_sec / config.period_millis + 1 in
    if ltb current_time_sec alarm_sec
    then alarm_sec
    else alarm_sec + periods_forward * config.period_millis / ms_per_sec

-- The tracker with a new InternalAlarm at `address`, whose time is a uint32_t. It goes to the alarm
-- monitor as well.
abbrev pub set_alarm : AlarmConfig → ℕ → ℕ → AlarmTracker
set_alarm config alarm_sec address = record {
  alarm_config = config;
  alarm_sec = alarm_sec;
  internal_alarm = record { address = address; timestamp_sec = alarm_sec % 2 ^ 32 };
}

unfoldable pub init : AlarmConfig → ℕ → ℕ → ℕ → AlarmTracker
unfolding find_next_alarm_sec
init config start_millis current_millis address =
    set_alarm config
      (find_next_alarm_sec config ((start_millis + config.offset_millis) / ms_per_sec)
        (current_millis / ms_per_sec))
      address

abbrev pub ns_per_sec : ℕ
ns_per_sec = 1000000000

-- (timestampNs - 1) / NS_PER_SEC + 1, where the division of C++ takes -1 to 0.
abbrev pub round_up : ℕ → ℕ
round_up timestamp_ns = (timestamp_ns - 1) / ns_per_sec + 1

abbrev pub has : List ℕ → ℕ → Bool
has [] a = false
has (b ∷ bs) a = (a == b) || has bs a

abbrev pub without : List ℕ → ℕ → List ℕ
without [] a = []
without (b ∷ bs) a = if a == b then without bs a else b ∷ without bs a

-- informAlarmsFired, less the subscribers. `fired` are the addresses of the fired alarms; those that
-- are left go to the other trackers. The next alarm is made at `address`.
unfoldable pub inform_alarms_fired : ℕ → ℕ → List ℕ → AlarmTracker → AlarmTracker × List ℕ
unfolding find_next_alarm_sec
inform_alarms_fired timestamp_ns address fired t =
    if has fired t.internal_alarm.address
    then (
      set_alarm t.alarm_config
          (find_next_alarm_sec t.alarm_config t.alarm_sec (round_up timestamp_ns)) address,
      without fired t.internal_alarm.address,
    )
    else (t, fired)
