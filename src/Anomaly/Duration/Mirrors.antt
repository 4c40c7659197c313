-- ===== src/Anomaly/Duration/Mirrors.antt =====
-- The monitor's queue against the alarms of the tracker.
use packages_modules_stats_d.Common.{
  ◌≤◌, none, some, Bool, true, false, ◌&&◌, ◌||◌, not, [], ◌∷◌, Eq, ◌≡◌, arith,
}
use packages_modules_stats_d.Common.Dict.{Dict, get, put, erase}
use packages_modules_stats_d.Alarm.{InternalAlarm}
use packages_modules_stats_d.Alarm.Queue.{PriorityQueue}
use packages_modules_stats_d.Alarm.Monitor.{AlarmMonitor, add, remove_alarm}
use packages_modules_stats_d.Anomaly.Duration.{
  DurationAnomalyTracker, alarm_eq, time_of, remove_all,
}
use packages_modules_stats_d.Anomaly.Duration.Held.{
  holds, at_key, IsDistinct, holds-at_key, holds-put, holds-erase, IsDistinct-put, IsDistinct-erase,
}

module _ {K Q S : Type 0} ⦃e : Eq K⦄ (p : PriorityQueue Q InternalAlarm time_of) where
  -- The queue holds the alarms of the tracker and those of `others`, which are not the tracker's.
  pub record Mirrors (others : InternalAlarm → Bool) (t : DurationAnomalyTracker K)
      (m : AlarmMonitor Q S) : Type 0 where
    pub valid : p.IsValid m.pq
    pub distinct : IsDistinct t.alarms
    pub apart : (x : InternalAlarm) → others x ≡ true → holds t.alarms x ≡ false
    pub same : (x : InternalAlarm) → p.contains m.pq x ≡ (others x || holds t.alarms x)

module _ {Q S : Type 0} (p : PriorityQueue Q InternalAlarm time_of) where
  pub pq-remove_alarm :
      (m : AlarmMonitor Q S) (a : InternalAlarm)
      → (remove_alarm p (some a) m).pq ≡ (p.remove a m.pq).0
  unfolding remove_alarm
  pq-remove_alarm m a = ground arith

  pub contains-remove_alarm :
      (m : AlarmMonitor Q S) (a x : InternalAlarm)
      → p.IsValid m.pq
      → p.contains (remove_alarm p (some a) m).pq x ≡ (p.contains m.pq x && not (alarm_eq.beq a x))
  unfolding remove_alarm
  contains-remove_alarm m a x v = rw (pq-remove_alarm m a) (p.contains-remove m.pq a x v)

  pub pq-add :
      (m : AlarmMonitor Q S) (a : InternalAlarm)
      → 1 ≤ a.timestamp_sec
      → (add p (some a) m).pq ≡ p.push a m.pq
  unfolding add
  pq-add m a h = ground arith

module _ {K Q S : Type 0} ⦃e : Eq K⦄ (p : PriorityQueue Q InternalAlarm time_of) where
  -- The alarm of a key leaves the queue and the map.
  pub drop-Mirrors :
      (others : InternalAlarm → Bool) (t : DurationAnomalyTracker K) (m : AlarmMonitor Q S)
      (key : K) (a : InternalAlarm)
      → Mirrors p others t m
      → get t.alarms key ≡ some a
      → Mirrors p others (record t { alarms = erase t.alarms key }) (remove_alarm p (some a) m)
  unfolding at_key
  drop-Mirrors others t m key a v h = record {
    valid = rw (pq-remove_alarm p m a) (p.remove-IsValid m.pq a v.valid);
    distinct = IsDistinct-erase t.alarms key v.distinct;
    apart = λ x o. ground (arith, holds-erase t.alarms key x v.distinct, v.apart x o);
    same = λ x. ground (
      arith,
      contains-remove_alarm p m a x v.valid,
      holds-erase t.alarms key x v.distinct,
      v.same x,
      v.apart x,
      holds-at_key t.alarms key a x h,
    );
  }

  pub set-Mirrors :
      (others : InternalAlarm → Bool) (t : DurationAnomalyTracker K) (m : AlarmMonitor Q S)
      (key : K) (a : InternalAlarm)
      → Mirrors p others t m
      → get t.alarms key ≡ none
      → 1 ≤ a.timestamp_sec
      → others a ≡ false
      → holds t.alarms a ≡ false
      → Mirrors p others (record t { alarms = put t.alarms key a }) (add p (some a) m)
  unfolding at_key
  set-Mirrors others t m key a v h low new fresh = record {
    valid = rw (pq-add p m a low) (p.push-IsValid m.pq a v.valid);
    distinct = IsDistinct-put t.alarms key a fresh v.distinct;
    apart = λ x o.
        ground (arith, holds-put t.alarms key a x v.distinct, v.apart x o, alarm_eq.beq_iff a x);
    same = λ x. ground (
      arith,
      pq-add p m a low,
      p.contains-push m.pq a x v.valid,
      holds-put t.alarms key a x v.distinct,
      v.same x,
    );
  }

  -- The same when the key has an alarm, which leaves the queue first.
  pub reset-Mirrors :
      (others : InternalAlarm → Bool) (t : DurationAnomalyTracker K) (m : AlarmMonitor Q S)
      (key : K) (old a : InternalAlarm)
      → Mirrors p others t m
      → get t.alarms key ≡ some old
      → 1 ≤ a.timestamp_sec
      → others a ≡ false
      → holds t.alarms a ≡ false
      → Mirrors p others
          (record t { alarms = put t.alarms key a })
          (add p (some a) (remove_alarm p (some old) m))
  unfolding at_key
  reset-Mirrors others t m key old a v h low new fresh =
      let w = drop-Mirrors others t m key old v h in
      let removed = remove_alarm p (some old) m in
      record {
        valid = rw (pq-add p removed a low) (p.push-IsValid removed.pq a w.valid);
        distinct = IsDistinct-put t.alarms key a fresh v.distinct;
        apart = λ x o.
            ground
              (arith, holds-put t.alarms key a x v.distinct, v.apart x o, alarm_eq.beq_iff a x);
        same = λ x. ground (
          arith,
          pq-add p removed a low,
          p.contains-push removed.pq a x w.valid,
          holds-put t.alarms key a x v.distinct,
          contains-remove_alarm p m old x v.valid,
          v.same x,
          v.apart x,
          holds-at_key t.alarms key old x h,
        );
      }

  -- Every alarm of the map leaves the queue.
  pub remove_all-Mirrors :
      (others : InternalAlarm → Bool) (alarms : Dict K InternalAlarm) (m : AlarmMonitor Q S)
      → p.IsValid m.pq
      → p.IsValid (remove_all p alarms m).pq
        × ((x : InternalAlarm)
            → p.contains (remove_all p alarms m).pq x ≡ (p.contains m.pq x && not (holds alarms x)))
  unfolding remove_all holds
  remove_all-Mirrors others [] m v = (v, λ x. ground arith)
  remove_all-Mirrors others ((k, a) ∷ alarms) m v =
      let removed = remove_alarm p (some a) m in
      let valid : p.IsValid removed.pq = rw (pq-remove_alarm p m a) (p.remove-IsValid m.pq a v) in
      let (w, h) = remove_all-Mirrors others alarms removed valid in
      (w, λ x. ground (arith, h x, contains-remove_alarm p m a x v))
