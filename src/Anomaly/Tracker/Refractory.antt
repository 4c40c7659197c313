-- ===== src/Anomaly/Tracker/Refractory.antt =====
-- The refractory period after a declared anomaly.
use packages_modules_stats_d.Common.{
  ℕ, ◌+◌, ◌-◌, ◌*◌, ◌/◌, ◌^◌, ◌<◌, ◌≡◌, some, Bool, true, false, arith, Eq, beq_refl, Option-cases,
  inl, inr,
}
use packages_modules_stats_d.Common.Dict.{put, get-put}
use packages_modules_stats_d.Anomaly.Tracker.{AnomalyTracker, ns_per_sec}
use packages_modules_stats_d.Anomaly.Tracker.Declare.{
  skipped, informed, is_in_refractory_period, refractory_end, start_refractory_period,
  declare_anomaly,
}

module _ {K V : Type 0} ⦃e : Eq K⦄ where
  -- When an alert with a refractory period has informed about a key, and the end fits in 32 bits:
  -- any later declaration for that key less than the period after the first is skipped and changes
  -- nothing, whatever fate decides.
  pub declare_anomaly_twice :
      (t : AnomalyTracker K V) (key : K) (period first later : ℕ) (fate : Bool)
      → t.alert.refractory_period_secs ≡ some period
      → (declare_anomaly true first key t).1 ≡ informed
      → (first + ns_per_sec - 1) / ns_per_sec + period < 2 ^ 32
      → later < first + period * ns_per_sec
      → declare_anomaly fate later key (declare_anomaly true first key t).0
        ≡ ((declare_anomaly true first key t).0, skipped)
  unfolding declare_anomaly start_refractory_period is_in_refractory_period
  declare_anomaly_twice t key period first later fate h i small soon = ground (
    arith,
    get-put t.refractory_period_ends_sec key key (refractory_end first period),
    beq_refl e key,
  )

  -- The period of one key does not touch another key: a declaration leaves whether any other key is
  -- in its refractory period as it was, at every time.
  pub is_in_refractory_period-declare_anomaly :
      (t : AnomalyTracker K V) (key other : K) (now at : ℕ) (fate : Bool)
      → e.beq key other ≡ false
      → is_in_refractory_period at other (declare_anomaly fate now key t).0
        ≡ is_in_refractory_period at other t
  unfolding declare_anomaly start_refractory_period is_in_refractory_period
  is_in_refractory_period-declare_anomaly t key other now at fate ne =
      elim (Option-cases t.alert.refractory_period_secs) [
        | inl none_set ↦ ground arith
        | inr (period, h) ↦
            ground
              (arith, get-put t.refractory_period_ends_sec key other (refractory_end now period))
      ]

  -- Nor does it touch what a declaration for the other key then does.
  pub declare_anomaly-declare_anomaly :
      (t : AnomalyTracker K V) (key other : K) (now at : ℕ) (fate other_fate : Bool)
      → e.beq key other ≡ false
      → ((declare_anomaly other_fate now other (declare_anomaly fate now key t).0).1
          ≡ (declare_anomaly other_fate now other t).1)
        × (is_in_refractory_period at other
              (declare_anomaly other_fate now other (declare_anomaly fate now key t).0).0
            ≡ is_in_refractory_period at other (declare_anomaly other_fate now other t).0)
  unfolding declare_anomaly start_refractory_period is_in_refractory_period
  declare_anomaly-declare_anomaly t key other now at fate other_fate ne =
      elim (Option-cases t.alert.refractory_period_secs) [
        | inl none_set ↦ ground arith
        | inr (period, h) ↦
            let ends = t.refractory_period_ends_sec in
            let end_sec = refractory_end now period in
            ground (
              arith,
              get-put ends key other end_sec,
              get-put ends other other end_sec,
              get-put (put ends key end_sec) other other end_sec,
              beq_refl e other,
            )
      ]
