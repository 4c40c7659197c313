-- ===== src/Anomaly/Duration/Calls.antt =====
-- The calls on a tracker and its monitor.
use packages_modules_stats_d.Common.{
  ℕ, ◌*◌, ◌^◌, ◌<◌, Option, none, some, Bool, false, [], leb, if◌then◌else◌, Eq, ◌≡◌,
}
use packages_modules_stats_d.Common.Dict.{get}
use packages_modules_stats_d.Alarm.{InternalAlarm, round_up, ns_per_sec}
use packages_modules_stats_d.Alarm.Queue.{PriorityQueue}
use packages_modules_stats_d.Alarm.Monitor.{AlarmMonitor}
use packages_modules_stats_d.Anomaly.Tracker.Declare.{declare_anomaly, is_in_refractory_period}
use packages_modules_stats_d.Anomaly.Duration.{
  DurationAnomalyTracker, alarm_eq, time_of, start_alarm, stop_alarm, cancel_all_alarms,
}
use packages_modules_stats_d.Anomaly.Duration.Held.{holds, IsDistinct}
use packages_modules_stats_d.Anomaly.Duration.Mirrors.{Mirrors}

pub data TrackerCall (K : Type 0) : Type 0 where
  start_call : ℕ → K → ℕ → TrackerCall K
  stop_call : Bool → K → ℕ → TrackerCall K
  cancel_call : TrackerCall K

abbrev pub new_alarm : ℕ → ℕ → InternalAlarm
new_alarm address timestamp_ns = record { address = address; timestamp_sec = round_up timestamp_ns }

module _ {K Q S : Type 0} ⦃e : Eq K⦄ (p : PriorityQueue Q InternalAlarm time_of) where
  abbrev pub IsMirrored :
      (InternalAlarm → Bool) → DurationAnomalyTracker K → Option (AlarmMonitor Q S) → Type 0
  IsMirrored others t none = IsDistinct t.alarms
  IsMirrored others t (some m) = Mirrors p others t m

  unfoldable pub step :
      TrackerCall K
      → DurationAnomalyTracker K
      → Option (AlarmMonitor Q S)
      → DurationAnomalyTracker K × Option (AlarmMonitor Q S)
  step (start_call address key timestamp_ns) t monitor =
      start_alarm p address key timestamp_ns t monitor
  step (stop_call fate key timestamp_ns) t monitor =
      let (u, r, declared) = stop_alarm p fate key timestamp_ns t monitor in (u, r)
  step cancel_call t monitor = cancel_all_alarms p t monitor

module _ {K : Type 0} ⦃e : Eq K⦄ where
  -- A new object is no alarm in use, and its time fits.
  unfoldable pub IsAllowed :
      (InternalAlarm → Bool) → DurationAnomalyTracker K → TrackerCall K → Type 0
  IsAllowed others t (start_call address key timestamp_ns) =
      (round_up timestamp_ns < 2 ^ 32)
      × (others (new_alarm address timestamp_ns) ≡ false)
      × (holds t.alarms (new_alarm address timestamp_ns) ≡ false)
  IsAllowed others t (stop_call fate key timestamp_ns) = Unit
  IsAllowed others t cancel_call = Unit

  -- The alarm of the key after a call, and the anomaly declared by it.
  unfoldable pub IsDone :
      TrackerCall K → DurationAnomalyTracker K → DurationAnomalyTracker K → Type 0
  IsDone (start_call address key timestamp_ns) t u =
      (get u.alarms key ≡ (
        if is_in_refractory_period timestamp_ns key t.base
        then get t.alarms key
        else some (new_alarm address timestamp_ns)))
      × (u.base ≡ t.base)
  IsDone (stop_call fate key timestamp_ns) t u =
      (get u.alarms key ≡ none)
      × (u.base ≡ (elim (get t.alarms key) [
        | none ↦ t.base
        | some a ↦
            if leb (ns_per_sec * a.timestamp_sec) timestamp_ns
            then (declare_anomaly fate timestamp_ns key t.base).0
            else t.base
      ]))
  IsDone cancel_call t u = (u.alarms ≡ []) × (u.base ≡ t.base)
