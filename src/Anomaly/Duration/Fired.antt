-- ===== src/Anomaly/Duration/Fired.antt =====
-- informAlarmsFired, on the alarms that popSoonerThan has taken off the queue.
use packages_modules_stats_d.Common.{
  ℕ, Option, none, some, Bool, false, ◌&&◌, not, List, [], ◌∷◌, Eq, ◌≡◌, arith, refl, if_both, ◌∙◌,
  ap, if◌then◌else◌, Bool-cases, inl, inr,
}
use packages_modules_stats_d.Common.Dict.{Dict, get, erase, get-erase}
use packages_modules_stats_d.Alarm.{InternalAlarm}
use packages_modules_stats_d.Alarm.Monitor.Pop.{has_alarm}
use packages_modules_stats_d.Anomaly.Tracker.Declare.{
  Declared, declare_anomaly, is_in_refractory_period,
}
use packages_modules_stats_d.Anomaly.Tracker.Refractory.{
  is_in_refractory_period-declare_anomaly, declare_anomaly-declare_anomaly,
}
use packages_modules_stats_d.Anomaly.Duration.{
  DurationAnomalyTracker, alarm_eq, erase_alarm, matched, declare_fired, inform_fired,
}
use packages_modules_stats_d.Anomaly.Duration.Held.{
  holds, at_key, IsDistinct, holds-erase, IsDistinct-erase,
}

has-erase_alarm :
    (fired : List InternalAlarm) (a x : InternalAlarm)
    → has_alarm (erase_alarm fired a) x ≡ (has_alarm fired x && not (alarm_eq.beq a x))
unfolding has_alarm erase_alarm
has-erase_alarm [] a x = refl
has-erase_alarm (b ∷ fired) a x =
    ground (arith, has-erase_alarm fired a x, alarm_eq.beq_iff b a, alarm_eq.beq_iff a x)

-- The alarm of a key, if it is among the fired ones.
abbrev pub fired_alarm : List InternalAlarm → Option InternalAlarm → Option InternalAlarm
fired_alarm fired none = none
fired_alarm fired (some a) = if has_alarm fired a then some a else none

module _ {K : Type 0} ⦃e : Eq K⦄ where
  -- The keys of `part` are distinct and have their alarms in `whole`.
  unfoldable pub IsPart : Dict K InternalAlarm → Dict K InternalAlarm → Type 0
  IsPart [] whole = Unit
  IsPart ((k, a) ∷ part) whole = (get whole k ≡ some a) × (get part k ≡ none) × IsPart part whole

  IsPart-erase :
      (part whole : Dict K InternalAlarm) (k : K)
      → IsPart part whole
      → get part k ≡ none
      → IsPart part (erase whole k)
  unfolding IsPart get
  IsPart-erase [] whole k h n = h
  IsPart-erase ((j, a) ∷ part) whole k (here, once, h) n = (
    ground (arith, get-erase whole k j, e.beq_iff k j, e.beq_iff j k),
    once,
    IsPart-erase part whole k h (ground arith),
  )

  IsPart-cons :
      (part whole : Dict K InternalAlarm) (k : K) (b : InternalAlarm)
      → IsPart part whole
      → get whole k ≡ none
      → IsPart part ((k, b) ∷ whole)
  unfolding IsPart get
  IsPart-cons [] whole k b h n = h
  IsPart-cons ((j, a) ∷ part) whole k b (here, once, h) n =
      (ground (arith, e.beq_iff k j), once, IsPart-cons part whole k b h n)

  get-matched :
      (fired : List InternalAlarm) (m : Dict K InternalAlarm) (k : K)
      → get m k ≡ none
      → get (matched fired m) k ≡ none
  unfolding get matched
  get-matched fired [] k n = refl
  get-matched fired ((j, a) ∷ m) k n = ground (arith, get-matched fired m k)

  matched-IsPart :
      (fired : List InternalAlarm) (m : Dict K InternalAlarm)
      → IsDistinct m
      → IsPart (matched fired m) m
  unfolding IsPart matched IsDistinct get
  matched-IsPart fired [] h = h
  matched-IsPart fired ((k, a) ∷ m) (new, fresh, h) =
      let rest = IsPart-cons (matched fired m) m k a (matched-IsPart fired m h) fresh in
      if_both (λ (z : Dict K InternalAlarm). IsPart z ((k, a) ∷ m)) (has_alarm fired a) _ _
        (λ t. (ground (arith, e.beq_iff k k), get-matched fired m k fresh, rest)) (λ t. rest)

  holds-matched :
      (fired : List InternalAlarm) (m : Dict K InternalAlarm) (x : InternalAlarm)
      → holds (matched fired m) x ≡ (holds m x && has_alarm fired x)
  unfolding holds matched
  holds-matched fired [] x = refl
  holds-matched fired ((k, a) ∷ m) x = ground (arith, holds-matched fired m x, alarm_eq.beq_iff a x)

  -- What declareAnomaly gives for a key whose alarm is in the map, none if it has no alarm there.
  unfoldable pub declared_for :
      (K → Bool) → ℕ → DurationAnomalyTracker K → K → Option InternalAlarm → Option Declared
  declared_for fate timestamp_ns t k none = none
  declared_for fate timestamp_ns t k (some a) =
      some (declare_anomaly (fate k) timestamp_ns k t.base).1

  -- Whether a key is in its refractory period at a time, if declareAnomaly is called for it exactly
  -- when its alarm is in the map.
  unfoldable pub refractory_after :
      (K → Bool) → ℕ → DurationAnomalyTracker K → K → ℕ → Option InternalAlarm → Bool
  refractory_after fate timestamp_ns t k at none = is_in_refractory_period at k t.base
  refractory_after fate timestamp_ns t k at (some a) =
      is_in_refractory_period at k (declare_anomaly (fate k) timestamp_ns k t.base).0

  -- What the loop over the matched alarms leaves.
  pub record IsInformed (fate : K → Bool) (timestamp_ns : ℕ) (part : Dict K InternalAlarm)
      (t u : DurationAnomalyTracker K) (fired still : List InternalAlarm)
      (told : List (K × Declared)) : Type 0 where
    pub distinct : IsDistinct u.alarms
    pub kept : (x : InternalAlarm) → holds u.alarms x ≡ (holds t.alarms x && not (holds part x))
    pub left : (x : InternalAlarm) → has_alarm still x ≡ (has_alarm fired x && not (holds part x))
    pub declared : (k : K) → get told k ≡ declared_for fate timestamp_ns t k (get part k)
    pub refractory :
        (k : K) (at : ℕ)
        → is_in_refractory_period at k u.base
          ≡ refractory_after fate timestamp_ns t k at (get part k)

  -- A declaration for another key first makes no difference to these.
  declared_for_other :
      (fate : K → Bool) (timestamp_ns : ℕ) (t u : DurationAnomalyTracker K) (k j : K)
      (o : Option InternalAlarm)
      → u.base ≡ (declare_anomaly (fate k) timestamp_ns k t.base).0
      → e.beq k j ≡ false
      → declared_for fate timestamp_ns u j o ≡ declared_for fate timestamp_ns t j o
  unfolding declared_for
  declared_for_other fate timestamp_ns t u k j none h ne = refl
  declared_for_other fate timestamp_ns t u k j (some a) h ne =
      rw h
        (ap some (declare_anomaly-declare_anomaly t.base k j timestamp_ns 0 (fate k) (fate j) ne).0)

  refractory_after_other :
      (fate : K → Bool) (timestamp_ns : ℕ) (t u : DurationAnomalyTracker K) (k j : K) (at : ℕ)
      (o : Option InternalAlarm)
      → u.base ≡ (declare_anomaly (fate k) timestamp_ns k t.base).0
      → e.beq k j ≡ false
      → refractory_after fate timestamp_ns u j at o ≡ refractory_after fate timestamp_ns t j at o
  unfolding refractory_after
  refractory_after_other fate timestamp_ns t u k j at none h ne =
      rw h (is_in_refractory_period-declare_anomaly t.base k j timestamp_ns at (fate k) ne)
  refractory_after_other fate timestamp_ns t u k j at (some a) h ne =
      rw h (declare_anomaly-declare_anomaly t.base k j timestamp_ns at (fate k) (fate j) ne).1

  declare_fired-IsInformed :
      (fate : K → Bool) (timestamp_ns : ℕ) (part : Dict K InternalAlarm)
      (t : DurationAnomalyTracker K) (fired : List InternalAlarm)
      → IsDistinct t.alarms
      → IsPart part t.alarms
      → let (u, still, told) = declare_fired fate timestamp_ns part t fired in
        IsInformed fate timestamp_ns part t u fired still told
  unfolding declare_fired holds IsPart declared_for refractory_after get at_key
  declare_fired-IsInformed fate timestamp_ns [] t fired v h = record {
    distinct = v;
    kept = λ x. ground arith;
    left = λ x. ground arith;
    declared = λ k. refl;
    refractory = λ k at. refl;
  }
  declare_fired-IsInformed fate timestamp_ns ((k, a) ∷ rest) t fired v (here, once, h) =
      let left : DurationAnomalyTracker K = record {
        base = (declare_anomaly (fate k) timestamp_ns k t.base).0;
        alarms = erase t.alarms k;
      } in
      let w =
        declare_fired-IsInformed fate timestamp_ns rest left (erase_alarm fired a)
          (IsDistinct-erase t.alarms k v) (IsPart-erase rest t.alarms k h once) in
      record {
        distinct = w.distinct;
        kept = λ x. ground (arith, w.kept x, holds-erase t.alarms k x v);
        left = λ x. ground (arith, w.left x, has-erase_alarm fired a x);
        declared = λ j. elim (Bool-cases (e.beq k j)) [
          | inl same ↦ ground (arith, (e.beq_iff k j).0 same)
          | inr ne ↦
              rw ne (
                w.declared j ∙ declared_for_other fate timestamp_ns t left k j (get rest j) refl ne)
        ];
        refractory = λ j at. elim (Bool-cases (e.beq k j)) [
          | inl same ↦ ground (arith, (e.beq_iff k j).0 same, w.refractory j at)
          | inr ne ↦ rw ne (
              w.refractory j at
              ∙ refractory_after_other fate timestamp_ns t left k j at (get rest j) refl ne)
        ];
      }

  get-matched_fired :
      (fired : List InternalAlarm) (m : Dict K InternalAlarm) (k : K)
      → IsDistinct m
      → get (matched fired m) k ≡ fired_alarm fired (get m k)
  unfolding matched get IsDistinct
  get-matched_fired fired [] k h = refl
  get-matched_fired fired ((j, a) ∷ m) k (new, fresh, h) =
      ground (arith, get-matched_fired fired m k h, e.beq_iff j k, get-matched fired m j fresh)

  pub inform_fired-IsInformed :
      (fate : K → Bool) (timestamp_ns : ℕ) (fired : List InternalAlarm)
      (t : DurationAnomalyTracker K)
      → IsDistinct t.alarms
      → let (u, still, told) = inform_fired fate timestamp_ns fired t in
        IsDistinct u.alarms
        × ((x : InternalAlarm) → holds u.alarms x ≡ (holds t.alarms x && not (has_alarm fired x)))
        × ((x : InternalAlarm) → has_alarm still x ≡ (has_alarm fired x && not (holds t.alarms x)))
        × ((k : K)
            → get told k ≡ declared_for fate timestamp_ns t k (fired_alarm fired (get t.alarms k)))
        × ((k : K) (at : ℕ)
            → is_in_refractory_period at k u.base
              ≡ refractory_after fate timestamp_ns t k at (fired_alarm fired (get t.alarms k)))
  unfolding inform_fired
  inform_fired-IsInformed fate timestamp_ns fired t v =
      let part = matched fired t.alarms in
      let w =
        declare_fired-IsInformed fate timestamp_ns part t fired v
          (matched-IsPart fired t.alarms v) in
      let same = λ (k : K). get-matched_fired fired t.alarms k v in
      (
        w.distinct,
        (λ x. ground (arith, w.kept x, holds-matched fired t.alarms x)),
        (λ x. ground (arith, w.left x, holds-matched fired t.alarms x)),
        (λ k. w.declared k ∙ ap (declared_for fate timestamp_ns t k) (same k)),
        (λ k at. w.refractory k at ∙ ap (refractory_after fate timestamp_ns t k at) (same k)),
      )
