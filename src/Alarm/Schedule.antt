-- ===== src/Alarm/Schedule.antt =====
-- The next time of a periodic alarm.
use packages_modules_stats_d.Common.{
  ℕ, ◌+◌, ◌-◌, ◌*◌, ◌/◌, ◌≤◌, ◌<◌, ◌≡◌, refl, true, false, arith, ltb, max, List, [], ◌∷◌, if_both,
}
use native.Mathlib.Nat.{mul-div_cancel, div-mul-le_self, lt-div-mul-add}
use packages_modules_stats_d.Alarm.{
  AlarmConfig, AlarmTracker, find_next_alarm_sec, ns_per_sec, round_up, has, without,
  inform_alarms_fired,
}

-- How a time lies on the schedule of an alarm: after `now`, a whole number of periods after the alarm
-- time, and no more than one period after `now` unless it is the alarm time itself.
record IsNext (alarm_sec period_sec now next : ℕ) : Type 0 where
  after : now < next
  on_schedule : (k : ℕ) × (next ≡ alarm_sec + k * period_sec)
  bounded : next ≤ max alarm_sec (now + period_sec)

times_thousand : (q p : ℕ) → q * (p * 1000) ≡ q * p * 1000
times_thousand q p = omega arith

whole_periods :
    (p d : ℕ)
    → 0 < p
    → let q = d * 1000 / (p * 1000) in
      ((q + 1) * (p * 1000) / 1000 ≡ (q + 1) * p) × (d < (q + 1) * p) × ((q + 1) * p ≤ d + p)
whole_periods p d h =
    let q = d * 1000 / (p * 1000) in
    let below = div-mul-le_self (d * 1000) (p * 1000) in
    let above = lt-div-mul-add {a = d * 1000} {b = p * 1000} (omega arith) in
    let cancel = mul-div_cancel ((q + 1) * p) {n = 1000} (omega arith) in
    (rw (times_thousand (q + 1) p) cancel, omega (arith, below, above), omega (arith, below))

find_next_alarm_sec-IsNext :
    (config : AlarmConfig) (alarm_sec period_sec now : ℕ)
    → 0 < period_sec
    → config.period_millis ≡ period_sec * 1000
    → IsNext alarm_sec period_sec now (find_next_alarm_sec config alarm_sec now)
unfolding find_next_alarm_sec
find_next_alarm_sec-IsNext config alarm_sec period_sec now h e =
    if_both (IsNext alarm_sec period_sec now) (ltb now alarm_sec) _ _
      (λ early. record {
        after = ground arith;
        on_schedule = (0, omega arith);
        bounded = omega arith;
      })
      λ late.
        let k = (now - alarm_sec) * 1000 / (period_sec * 1000) + 1 in
        let (whole, beyond, near) = whole_periods period_sec (now - alarm_sec) h in
        rw e (
          rw whole
            (record { after = ground arith; on_schedule = (k, refl); bounded = ground arith }))

without_lem : (bs : List ℕ) (a : ℕ) → has (without bs a) a ≡ false
without_lem [] a = refl
without_lem (b ∷ bs) a = ground (arith, without_lem bs a)

-- The time rounded up to a whole second is not before it, and less than a second after it; for time 0
-- it is one second.
round_up_lem :
    (timestamp_ns : ℕ)
    → (timestamp_ns ≤ round_up timestamp_ns * ns_per_sec)
      × (round_up timestamp_ns * ns_per_sec ≤ max 1000000000 (timestamp_ns + 999999999))
round_up_lem timestamp_ns = (omega arith, omega arith)

-- For an alarm whose period is a positive number of whole seconds, when it is among the fired ones at
-- some time: it is taken off them, and its next alarm, which is in a new object, lies a whole number
-- of periods after the old alarm and at least one second after that time. Unless it is the old
-- alarm's own time still to come, it lies less than the period and one second after that time; at
-- time 0, at most the period and one second after it.
pub inform_alarms_fired-IsNext :
    (t : AlarmTracker) (timestamp_ns address period_sec : ℕ) (fired : List ℕ)
    → 0 < period_sec
    → t.alarm_config.period_millis ≡ period_sec * 1000
    → has fired t.internal_alarm.address ≡ true
    → let (u, rest) = inform_alarms_fired timestamp_ns address fired t in
      ((k : ℕ) × (u.alarm_sec ≡ t.alarm_sec + k * period_sec))
      × (timestamp_ns + 1000000000 ≤ u.alarm_sec * 1000000000)
      × (u.alarm_sec * 1000000000
          ≤ max
              (t.alarm_sec * 1000000000)
              (period_sec * 1000000000 + max 1000000000 (timestamp_ns + 999999999)))
      × (u.internal_alarm.address ≡ address)
      × (has rest t.internal_alarm.address ≡ false)
unfolding inform_alarms_fired
inform_alarms_fired-IsNext t timestamp_ns address period_sec fired h e f =
    let next =
      find_next_alarm_sec-IsNext t.alarm_config t.alarm_sec period_sec (round_up timestamp_ns) h
        e in
    let (low, high) = round_up_lem timestamp_ns in
    rw f (
      next.on_schedule,
      omega (arith, next.after, low),
      omega (arith, next.bounded, high),
      refl,
      without_lem fired t.internal_alarm.address,
    )
