-- ===== src/Alarm/Monitor.antt =====
-- statsd/src/anomaly/AlarmMonitor.h and .cpp: the alarms, and the one that the companion service has
-- been told of. A null alarm or a null service is `none`; the two callbacks append to `calls`, the
-- latest first. A sum of uint32_t wraps. The queue is any that keeps the contract of Alarm/Queue.
pub mod Near
pub mod Pop
pub mod Steps
pub mod Adding
pub mod Run
mod Tests
use packages_modules_stats_d.Common.{
  ℕ, zero, suc, ◌+◌, ◌*◌, ◌%◌, ◌^◌, Option, none, some, Bool, true, false, ◌||◌, List, [], ◌∷◌, ltb,
  leb, if◌then◌else◌, Eq,
}
use packages_modules_stats_d.Alarm.Queue.{PriorityQueue}

-- A call of mUpdateAlarm, with its time in milliseconds, or of mCancelAlarm.
pub data AlarmCall (S : Type 0) : Type 0 where
  update_alarm : Option S → ℕ → AlarmCall S
  cancel_alarm : Option S → AlarmCall S

pub record AlarmMonitor (Q S : Type 0) : Type 0 where
  pub registered_alarm_time_sec : ℕ
  pub pq : Q
  pub stats_companion_service : Option S
  pub min_update_time_sec : ℕ
  pub calls : List (AlarmCall S)

abbrev pub sec_to_ms : ℕ → ℕ
sec_to_ms time_sec = time_sec * 1000

module _ {Q S : Type 0} where
  abbrev pub update_registered_alarm_time : ℕ → AlarmMonitor Q S → AlarmMonitor Q S
  update_registered_alarm_time timestamp_sec m = record m {
    registered_alarm_time_sec = timestamp_sec;
    calls = update_alarm m.stats_companion_service (sec_to_ms timestamp_sec) ∷ m.calls;
  }

  abbrev pub cancel_registered_alarm_time : AlarmMonitor Q S → AlarmMonitor Q S
  cancel_registered_alarm_time m = record m {
    registered_alarm_time_sec = 0;
    calls = cancel_alarm m.stats_companion_service ∷ m.calls;
  }

module _ {Q A : Type 0} ⦃e : Eq A⦄ {timestamp_sec : A → ℕ}
    (p : PriorityQueue Q A timestamp_sec) where
  -- The loop of popSoonerThan, for as many rounds as the queue has alarms.
  unfoldable pub pop_loop : ℕ → ℕ → Q → List A × Q
  pop_loop zero until q = ([], q)
  pop_loop (suc fuel) until q = elim (p.top q) [
    | none ↦ ([], q)
    | some t ↦
        let (old_alarms, rest) = pop_loop fuel until (p.pop q) in
        if leb (timestamp_sec t) until then (t ∷ old_alarms, rest) else ([], q)
  ]

module _ {Q A S : Type 0} ⦃e : Eq A⦄ {timestamp_sec : A → ℕ}
    (p : PriorityQueue Q A timestamp_sec) where
  abbrev pub start : ℕ → AlarmMonitor Q S
  start min_diff = record {
    registered_alarm_time_sec = 0;
    pq = p.init;
    stats_companion_service = none;
    min_update_time_sec = min_diff;
    calls = [];
  }

  -- The registered time as that of the top, when there is one.
  abbrev pub update_to_top : AlarmMonitor Q S → AlarmMonitor Q S → AlarmMonitor Q S
  update_to_top empty m = elim (p.top m.pq) [
    | none ↦ empty
    | some a ↦ update_registered_alarm_time (timestamp_sec a) m
  ]

  -- The registered alarm after popSoonerThan, which cancels it when no alarm is left.
  unfoldable pub settle : List A → AlarmMonitor Q S → AlarmMonitor Q S
  settle [] m = m
  settle (a ∷ old_alarms) m = update_to_top (cancel_registered_alarm_time m) m

  unfoldable pub set_stats_companion_service : Option S → AlarmMonitor Q S → AlarmMonitor Q S
  set_stats_companion_service service m =
      let linked = record m { stats_companion_service = service } in
      elim service [ none ↦ linked | some s ↦ update_to_top linked linked ]

  unfoldable pub add : Option A → AlarmMonitor Q S → AlarmMonitor Q S
  add none m = m
  add (some alarm) m =
      let pushed = record m { pq = p.push alarm m.pq } in
      if ltb (timestamp_sec alarm) 1
      then m
      else if ltb m.registered_alarm_time_sec 1
          || ltb ((timestamp_sec alarm + m.min_update_time_sec) % 2 ^ 32)
              m.registered_alarm_time_sec
      then update_registered_alarm_time (timestamp_sec alarm) pushed
      else pushed

  unfoldable pub remove_alarm : Option A → AlarmMonitor Q S → AlarmMonitor Q S
  remove_alarm none m = m
  remove_alarm (some alarm) m =
      let removed = record m { pq = (p.remove alarm m.pq).0 } in
      if (p.remove alarm m.pq).1
      then elim (p.top removed.pq) [
        | none ↦ cancel_registered_alarm_time removed
        | some soonest ↦
            if ltb ((m.registered_alarm_time_sec + m.min_update_time_sec) % 2 ^ 32)
              (timestamp_sec soonest)
            then update_registered_alarm_time (timestamp_sec soonest) removed
            else removed
      ]
      else removed

  unfoldable pub pop_sooner_than : ℕ → AlarmMonitor Q S → List A × AlarmMonitor Q S
  pop_sooner_than until m =
      let (old_alarms, rest) = pop_loop p (p.size m.pq) until m.pq in
      (old_alarms, settle old_alarms (record m { pq = rest }))
