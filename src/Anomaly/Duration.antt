-- ===== src/Anomaly/Duration.antt =====
-- statsd/src/anomaly/DurationAnomalyTracker.h and .cpp: an alarm for each dimension key, shared with the
-- alarm monitor. A null monitor is `none`. `new` takes the address of the object as an argument, and
-- `rand()` of declareAnomaly is the argument `fate`. Timestamps are not negative. The past values of a
-- duration metric are whole nanoseconds, and nothing here computes with them.
pub mod Held
pub mod Mirrors
pub mod Fired
pub mod Calls
pub mod Delivery
mod Tests
use packages_modules_stats_d.Common.{
  ℕ, ◌*◌, ◌%◌, ◌^◌, Option, none, some, Bool, true, false, ◌&&◌, ◌||◌, List, [], ◌∷◌, leb, ◌==◌,
  if◌then◌else◌, Eq, ◌↔◌, ◌≡◌, arith,
}
use packages_modules_stats_d.Common.Dict.{Dict, get, put, erase}
use packages_modules_stats_d.Alarm.{InternalAlarm, round_up, ns_per_sec}
use packages_modules_stats_d.Alarm.Queue.{PriorityQueue}
use packages_modules_stats_d.Alarm.Monitor.{AlarmMonitor, add, remove_alarm}
use packages_modules_stats_d.Alarm.Monitor.Pop.{has_alarm}
use packages_modules_stats_d.Anomaly.Tracker.{AnomalyTracker}
use packages_modules_stats_d.Anomaly.Tracker.Declare.{
  Declared, is_in_refractory_period, declare_anomaly,
}

-- Pointers are equal when their objects are at one address; the time of an object is const, so the
-- records are equal then.
abbrev pub same_alarm : InternalAlarm → InternalAlarm → Bool
same_alarm a b = a.address == b.address && a.timestamp_sec == b.timestamp_sec

pub same_alarm_iff : (a b : InternalAlarm) → (same_alarm a b ≡ true) ↔ (a ≡ b)
same_alarm_iff a b = ground arith

instance abbrev pub alarm_eq : Eq InternalAlarm
alarm_eq = record { beq = same_alarm; beq_iff = same_alarm_iff }

abbrev pub time_of : InternalAlarm → ℕ
time_of a = a.timestamp_sec

pub record DurationAnomalyTracker (K : Type 0) : Type 0 where
  pub base : AnomalyTracker K ℕ
  pub alarms : Dict K InternalAlarm

abbrev pub on_monitor : {M : Type 0} → (M → M) → Option M → Option M
on_monitor f none = none
on_monitor f (some m) = some (f m)

-- firedAlarms.erase(a)
unfoldable pub erase_alarm : List InternalAlarm → InternalAlarm → List InternalAlarm
erase_alarm [] a = []
erase_alarm (b ∷ fired) a =
    let rest = erase_alarm fired a in if alarm_eq.beq b a then rest else b ∷ rest

-- The intersection of the tracker's alarms and the fired ones.
unfoldable pub matched :
    {K : Type 0} → List InternalAlarm → Dict K InternalAlarm → Dict K InternalAlarm
matched fired [] = []
matched fired ((k, a) ∷ alarms) =
    let rest = matched fired alarms in if has_alarm fired a then (k, a) ∷ rest else rest

module _ {K : Type 0} ⦃e : Eq K⦄ where
  -- The loop over the matched alarms.
  unfoldable pub declare_fired :
      (K → Bool)
      → ℕ
      → Dict K InternalAlarm
      → DurationAnomalyTracker K
      → List InternalAlarm
      → DurationAnomalyTracker K × List InternalAlarm × List (K × Declared)
  declare_fired fate timestamp_ns [] t fired = (t, fired, [])
  declare_fired fate timestamp_ns ((k, a) ∷ rest) t fired =
      let (base, declared) = declare_anomaly (fate k) timestamp_ns k t.base in
      let left : DurationAnomalyTracker K = record { base = base; alarms = erase t.alarms k } in
      let (u, still, told) = declare_fired fate timestamp_ns rest left (erase_alarm fired a) in
      (u, still, (k, declared) ∷ told)

  -- Without fired alarms or alarms there is none in the intersection.
  unfoldable pub inform_fired :
      (K → Bool)
      → ℕ
      → List InternalAlarm
      → DurationAnomalyTracker K
      → DurationAnomalyTracker K × List InternalAlarm × List (K × Declared)
  inform_fired fate timestamp_ns fired t =
      declare_fired fate timestamp_ns (matched fired t.alarms) t fired

module _ {K Q S : Type 0} ⦃e : Eq K⦄ (p : PriorityQueue Q InternalAlarm time_of) where
  unfoldable pub start_alarm :
      ℕ
      → K
      → ℕ
      → DurationAnomalyTracker K
      → Option (AlarmMonitor Q S)
      → DurationAnomalyTracker K × Option (AlarmMonitor Q S)
  start_alarm address key timestamp_ns t monitor =
      let alarm : InternalAlarm = record {
        address = address;
        timestamp_sec = round_up timestamp_ns % 2 ^ 32;
      } in
      if is_in_refractory_period timestamp_ns key t.base then (t, monitor) else (
        record t { alarms = put t.alarms key alarm },
        on_monitor (add p (some alarm)) (elim (get t.alarms key) [
          | none ↦ monitor
          | some old ↦ on_monitor (remove_alarm p (some old)) monitor
        ]),
      )

  -- A late alarm is declared now.
  unfoldable pub stop_alarm :
      Bool
      → K
      → ℕ
      → DurationAnomalyTracker K
      → Option (AlarmMonitor Q S)
      → DurationAnomalyTracker K × Option (AlarmMonitor Q S) × Option Declared
  stop_alarm fate key timestamp_ns t monitor = elim (get t.alarms key) [
    | none ↦ (t, monitor, none)
    | some alarm ↦
        let removed = on_monitor (remove_alarm p (some alarm)) monitor in
        let alarms = erase t.alarms key in
        let (base, declared) = declare_anomaly fate timestamp_ns key t.base in
        if leb (ns_per_sec * alarm.timestamp_sec) timestamp_ns
        then (record { base = base; alarms = alarms }, removed, some declared)
        else (record t { alarms = alarms }, removed, none)
  ]

  unfoldable pub remove_all : Dict K InternalAlarm → AlarmMonitor Q S → AlarmMonitor Q S
  remove_all [] m = m
  remove_all ((k, a) ∷ alarms) m = remove_all alarms (remove_alarm p (some a) m)

  unfoldable pub cancel_all_alarms :
      DurationAnomalyTracker K
      → Option (AlarmMonitor Q S)
      → DurationAnomalyTracker K × Option (AlarmMonitor Q S)
  cancel_all_alarms t monitor = (record t { alarms = [] }, on_monitor (remove_all t.alarms) monitor)
