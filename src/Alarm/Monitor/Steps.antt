-- ===== src/Alarm/Monitor/Steps.antt =====
-- Every call on the monitor keeps the registered alarm near the soonest one.
use packages_modules_stats_d.Common.{
  ℕ, ◌+◌, ◌%◌, ◌^◌, ◌≤◌, ◌<◌, ◌≡◌, refl, ◌∙◌, Option, none, some, true, List, [], ◌∷◌, ltb, Eq,
  arith, if_both, Option-cases, Bool-cases, inl, inr, subst,
}
use packages_modules_stats_d.Alarm.Queue.{PriorityQueue}
use packages_modules_stats_d.Alarm.Monitor.{
  AlarmMonitor, update_registered_alarm_time, cancel_registered_alarm_time, update_to_top, start,
  set_stats_companion_service, remove_alarm, settle, pop_sooner_than, pop_loop,
}
use packages_modules_stats_d.Alarm.Monitor.Pop.{pop_loop-IsPopped}
use packages_modules_stats_d.Alarm.Monitor.Near.{
  told, IsNear, unlinked, idle, sent, IsRegistered, near_held, held-IsNear,
}

module _ {Q A S : Type 0} ⦃e : Eq A⦄ {timestamp_sec : A → ℕ}
    (p : PriorityQueue Q A timestamp_sec) where
  pub start-IsRegistered : (d : ℕ) → d < 2 ^ 32 → IsRegistered {S = S} p (start p d)
  unfolding told
  start-IsRegistered d small = record {
    valid = p.init-IsValid;
    small = λ x t. ground (arith, p.contains-init x);
    registered_small = omega arith;
    near = rw p.top-init refl;
    told_registered = refl;
    service_told = unlinked refl;
  }

  -- Registering the soonest alarm.
  pub updated_top-IsRegistered :
      (m : AlarmMonitor Q S) (a : A)
      → p.IsValid m.pq
      → ((x : A)
          → p.contains m.pq x ≡ true
          → (1 ≤ timestamp_sec x) × (timestamp_sec x + m.min_update_time_sec < 2 ^ 32))
      → p.top m.pq ≡ some a
      → IsRegistered p (update_registered_alarm_time (timestamp_sec a) m)
  unfolding told
  updated_top-IsRegistered m a v small h =
      let (low, high) = small a (p.contains-top m.pq a v h) in
      record {
        valid = v;
        small = small;
        registered_small = high;
        near = rw h (low, omega arith, omega arith);
        told_registered = refl;
        service_told = sent refl;
      }

  pub cancelled-IsRegistered :
      (m : AlarmMonitor Q S)
      → p.IsValid m.pq
      → m.min_update_time_sec < 2 ^ 32
      → p.top m.pq ≡ none
      → IsRegistered p (cancel_registered_alarm_time m)
  unfolding told
  cancelled-IsRegistered m v small h = record {
    valid = v;
    small = λ x t. ground (arith, p.top_none m.pq x v h);
    registered_small = omega arith;
    near = rw h refl;
    told_registered = refl;
    service_told = idle refl;
  }

  pub update_to_top-IsRegistered :
      (empty m : AlarmMonitor Q S)
      → p.IsValid m.pq
      → ((x : A)
          → p.contains m.pq x ≡ true
          → (1 ≤ timestamp_sec x) × (timestamp_sec x + m.min_update_time_sec < 2 ^ 32))
      → (p.top m.pq ≡ none → IsRegistered p empty)
      → IsRegistered p (update_to_top p empty m)
  update_to_top-IsRegistered empty m v small none_case = elim (Option-cases (p.top m.pq)) [
    | inl h ↦ rw (update_to_top, h) (none_case h)
    | inr (a, h) ↦ rw (update_to_top, h) (updated_top-IsRegistered m a v small h)
  ]

  pub set_stats_companion_service-IsRegistered :
      (service : Option S) (m : AlarmMonitor Q S)
      → IsRegistered p m
      → IsRegistered p (set_stats_companion_service p service m)
  unfolding set_stats_companion_service
  set_stats_companion_service-IsRegistered none m v = record {
    valid = v.valid;
    small = v.small;
    registered_small = v.registered_small;
    near = v.near;
    told_registered = v.told_registered;
    service_told = unlinked refl;
  }
  set_stats_companion_service-IsRegistered (some s) m v =
      update_to_top-IsRegistered (record m { stats_companion_service = some s })
        (record m { stats_companion_service = some s }) v.valid v.small
        (λ h. record {
          valid = v.valid;
          small = v.small;
          registered_small = v.registered_small;
          near = v.near;
          told_registered = v.told_registered;
          service_told = idle (
              subst (IsNear timestamp_sec m.registered_alarm_time_sec m.min_update_time_sec) h
                v.near);
        })

  settle-IsRegistered :
      (old : List A) (rest : Q) (m : AlarmMonitor Q S)
      → IsRegistered p m
      → p.IsValid rest
      → ((x : A) → p.contains rest x ≡ true → p.contains m.pq x ≡ true)
      → (old ≡ [] → rest ≡ m.pq)
      → IsRegistered p (settle p old (record m { pq = rest }))
  unfolding settle
  settle-IsRegistered [] rest m v valid sub same = rw (same refl) (record {
    valid = v.valid;
    small = v.small;
    registered_small = v.registered_small;
    near = v.near;
    told_registered = v.told_registered;
    service_told = v.service_told;
  })
  settle-IsRegistered (a ∷ old) rest m v valid sub same =
      let left = record m { pq = rest } in
      update_to_top-IsRegistered (cancel_registered_alarm_time left) left valid
        (λ x t. v.small x (sub x t))
        (λ h. cancelled-IsRegistered left valid (omega (arith, v.registered_small)) h)

  pub pop_sooner_than-IsRegistered :
      (until : ℕ) (m : AlarmMonitor Q S)
      → IsRegistered p m
      → IsRegistered p (pop_sooner_than p until m).1
  unfolding pop_sooner_than
  pop_sooner_than-IsRegistered until m v =
      let r = pop_loop-IsPopped p (p.size m.pq) until m.pq v.valid (omega arith) in
      settle-IsRegistered (pop_loop p (p.size m.pq) until m.pq).0
        (pop_loop p (p.size m.pq) until m.pq).1 m v r.valid (λ x t. ground (arith, r.kept x))
        r.unchanged

  remove_alarm-IsRegistered_found :
      (alarm : A) (m : AlarmMonitor Q S)
      → IsRegistered p m
      → p.contains m.pq alarm ≡ true
      → IsRegistered p (remove_alarm p (some alarm) m)
  unfolding remove_alarm told
  remove_alarm-IsRegistered_found alarm m v t =
      let q = (p.remove alarm m.pq).0 in
      let removed = record m { pq = q } in
      let valid = p.remove-IsValid m.pq alarm v.valid in
      let found = p.remove_found m.pq alarm v.valid ∙ t in
      let sub : (x : A) → p.contains q x ≡ true → p.contains m.pq x ≡ true =
        λ x c. ground (arith, p.contains-remove m.pq alarm x v.valid) in
      let small : (x : A)
          → p.contains q x ≡ true
          → (1 ≤ timestamp_sec x) × (timestamp_sec x + m.min_update_time_sec < 2 ^ 32) =
        λ x c. v.small x (sub x c) in
      elim (Option-cases (p.top q)) [
        | inl h ↦
            rw (remove_alarm, found, h)
              (cancelled-IsRegistered removed valid (omega (arith, v.registered_small)) h)
        | inr (b, h) ↦
            rw (remove_alarm, found, h)
              (if_both (IsRegistered p)
                (ltb ((m.registered_alarm_time_sec + m.min_update_time_sec) % 2 ^ 32)
                  (timestamp_sec b))
                _ _ (λ late. updated_top-IsRegistered removed b valid small h)
                (λ soon. record {
                  valid = valid;
                  small = small;
                  registered_small = v.registered_small;
                  near =
                      held-IsNear p q m.registered_alarm_time_sec m.min_update_time_sec b valid
                        (p.contains-top q b valid h) (ground (arith, v.registered_small))
                        (λ x c.
                          near_held p m.pq m.registered_alarm_time_sec m.min_update_time_sec v.valid
                            v.near x (sub x c));
                  told_registered = v.told_registered;
                  service_told = v.service_told;
                }))
      ]

  pub remove_alarm-IsRegistered :
      (alarm : Option A) (m : AlarmMonitor Q S)
      → IsRegistered p m
      → IsRegistered p (remove_alarm p alarm m)
  unfolding remove_alarm
  remove_alarm-IsRegistered none m v = v
  remove_alarm-IsRegistered (some alarm) m v = elim (Bool-cases (p.contains m.pq alarm)) [
    | inl t ↦ remove_alarm-IsRegistered_found alarm m v t
    | inr t ↦
        let missing = p.remove_found m.pq alarm v.valid ∙ t in
        let same = p.remove_missing m.pq alarm v.valid t in
        rw (remove_alarm, missing, same)
          (record {
            valid = v.valid;
            small = v.small;
            registered_small = v.registered_small;
            near = v.near;
            told_registered = v.told_registered;
            service_told = v.service_told;
          })
  ]
