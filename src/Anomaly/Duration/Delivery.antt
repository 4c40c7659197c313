-- ===== src/Anomaly/Duration/Delivery.antt =====
-- popSoonerThan, whose alarms go to informAlarmsFired.
use packages_modules_stats_d.Common.{
  ℕ, none, some, Bool, ◌&&◌, leb, ltb, Eq, ◌≡◌, arith, refl, Option-cases, inl, inr, ◌∙◌, ap,
  if◌then◌else◌, Option, some,
}
use packages_modules_stats_d.Common.Dict.{get}
use packages_modules_stats_d.Alarm.{InternalAlarm}
use packages_modules_stats_d.Alarm.Queue.{PriorityQueue}
use packages_modules_stats_d.Alarm.Monitor.{AlarmMonitor, pop_sooner_than}
use packages_modules_stats_d.Alarm.Monitor.Pop.{has_alarm, pop_sooner_than-IsPopped}
use packages_modules_stats_d.Anomaly.Tracker.Declare.{is_in_refractory_period}
use packages_modules_stats_d.Anomaly.Duration.{
  DurationAnomalyTracker, alarm_eq, time_of, inform_fired,
}
use packages_modules_stats_d.Anomaly.Duration.Held.{holds-at_key}
use packages_modules_stats_d.Anomaly.Duration.Mirrors.{Mirrors}
use packages_modules_stats_d.Anomaly.Duration.Fired.{
  declared_for, refractory_after, fired_alarm, inform_fired-IsInformed,
}

-- The alarm of a key, if it is due.
abbrev pub due_alarm : ℕ → Option InternalAlarm → Option InternalAlarm
due_alarm until none = none
due_alarm until (some a) = if leb a.timestamp_sec until then some a else none

module _ {K Q S : Type 0} ⦃e : Eq K⦄ (p : PriorityQueue Q InternalAlarm time_of) where
  -- When the queue holds the tracker's alarms and others', and popSoonerThan is followed by
  -- informAlarmsFired: declareAnomaly has been called for exactly the keys whose alarms were due, with
  -- the outcome that a call on the tracker as it was would have had (skipped in the key's refractory
  -- period, otherwise informed or logged), and each of these keys is in its refractory period when
  -- that call would have left it there, every other key when it was before; what is left of the fired
  -- alarms is exactly the others' that were due, and the queue holds the tracker's remaining alarms and
  -- the others' later ones.
  pub inform_fired-Mirrors :
      (others : InternalAlarm → Bool) (t : DurationAnomalyTracker K) (m : AlarmMonitor Q S)
      (fate : K → Bool) (until timestamp_ns : ℕ)
      → Mirrors p others t m
      → let (old, r) = pop_sooner_than p until m in
        let (u, still, told) = inform_fired fate timestamp_ns old t in
        Mirrors p (λ x. others x && ltb until x.timestamp_sec) u r
        × ((x : InternalAlarm) → has_alarm still x ≡ (others x && leb x.timestamp_sec until))
        × ((k : K)
            → get told k ≡ declared_for fate timestamp_ns t k (due_alarm until (get t.alarms k)))
        × ((k : K) (at : ℕ)
            → is_in_refractory_period at k u.base
              ≡ refractory_after fate timestamp_ns t k at (due_alarm until (get t.alarms k)))
  inform_fired-Mirrors others t m fate until timestamp_ns v =
      let (old, kept, valid, time) = pop_sooner_than-IsPopped p until m v.valid in
      let (distinct, held, left, declared, refractory) =
        inform_fired-IsInformed fate timestamp_ns (pop_sooner_than p until m).0 t v.distinct in
      (
        record {
          valid = valid;
          distinct = distinct;
          apart = λ x o. ground (arith, held x, v.apart x);
          same = λ x. ground (arith, held x, kept x, old x, v.same x);
        },
        (λ x. ground (arith, left x, old x, v.same x, v.apart x)),
        (λ k. declared k ∙ ap (declared_for fate timestamp_ns t k) (due k)),
        (λ k at. refractory k at ∙ ap (refractory_after fate timestamp_ns t k at) (due k)),
      )
    where
      due :
          (k : K)
          → fired_alarm (pop_sooner_than p until m).0 (get t.alarms k)
            ≡ due_alarm until (get t.alarms k)
      due k = elim (Option-cases (get t.alarms k)) [
        | inl h ↦ rw h refl
        | inr (a, h) ↦ ground (
          arith,
          (pop_sooner_than-IsPopped p until m v.valid).0 a,
          v.same a,
          holds-at_key t.alarms k a a h,
          alarm_eq.beq_iff a a,
        )
      ]
