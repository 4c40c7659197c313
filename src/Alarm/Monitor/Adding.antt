-- ===== src/Alarm/Monitor/Adding.antt =====
-- add keeps the registered alarm near the soonest one.
use packages_modules_stats_d.Common.{
  ℕ, ◌+◌, ◌%◌, ◌^◌, ◌≤◌, ◌<◌, ◌≡◌, refl, sym, Option, none, some, true, false, ◌||◌, ltb, Eq, arith,
  if_both, Bool-cases, inl, inr, ◌⊎◌,
}
use packages_modules_stats_d.Alarm.Queue.{PriorityQueue}
use packages_modules_stats_d.Alarm.Monitor.{AlarmMonitor, add}
use packages_modules_stats_d.Alarm.Monitor.Near.{
  told, sent, IsRegistered, near_held, near_soonest, held-IsNear,
}

module _ {Q A S : Type 0} ⦃e : Eq A⦄ {timestamp_sec : A → ℕ}
    (p : PriorityQueue Q A timestamp_sec) where
  add-IsRegistered_present :
      (a : A) (m : AlarmMonitor Q S)
      → IsRegistered p m
      → 1 ≤ timestamp_sec a
      → timestamp_sec a + m.min_update_time_sec < 2 ^ 32
      → IsRegistered p (add p (some a) m)
  unfolding add told
  add-IsRegistered_present a m v low high =
      let q = p.push a m.pq in
      let d = m.min_update_time_sec in
      let r = m.registered_alarm_time_sec in
      let pushed = record m { pq = q } in
      let valid = p.push-IsValid m.pq a v.valid in
      let here : p.contains q a ≡ true =
        ground (arith, p.contains-push m.pq a a v.valid, e.beq_iff a a) in
      let either : (x : A) → p.contains q x ≡ true → (a ≡ x) ⊎ (p.contains m.pq x ≡ true) =
        λ x c. ground (arith, p.contains-push m.pq a x v.valid, e.beq_iff a x) in
      let small : (x : A)
          → p.contains q x ≡ true
          → (1 ≤ timestamp_sec x) × (timestamp_sec x + d < 2 ^ 32) =
        λ x c. elim (either x c) [ inl same ↦ rw (sym same) (low, high) | inr c ↦ v.small x c ] in
      let early : ltb (timestamp_sec a) 1 ≡ false = ground arith in
      rw (add, early)
        (if_both (IsRegistered p) (ltb r 1 || ltb ((timestamp_sec a + d) % 2 ^ 32) r) _ _
          (λ t. record {
            valid = valid;
            small = small;
            registered_small = high;
            near = held-IsNear p q (timestamp_sec a) d a valid here (omega arith) (λ x c.
                elim (either x c) [
                  | inl same ↦ (low, rw (sym same) (omega arith))
                  | inr c ↦ ground (arith, near_held p m.pq r d v.valid v.near x c)
                ]);
            told_registered = refl;
            service_told = sent refl;
          })
          (λ t.
            let registered : 1 ≤ r = ground arith in
            let (s, c, down) = near_soonest p m.pq r d v.valid v.near registered in
            record {
              valid = valid;
              small = small;
              registered_small = v.registered_small;
              near =
                  held-IsNear p q r d s valid (ground (arith, p.contains-push m.pq a s v.valid))
                    down
                    (λ x c. elim (either x c) [
                      | inl same ↦ (registered, rw (sym same) (ground arith))
                      | inr c ↦ near_held p m.pq r d v.valid v.near x c
                    ]);
              told_registered = v.told_registered;
              service_told = v.service_told;
            }))

  pub add-IsRegistered :
      (alarm : Option A) (m : AlarmMonitor Q S)
      → IsRegistered p m
      → ((a : A) → alarm ≡ some a → timestamp_sec a + m.min_update_time_sec < 2 ^ 32)
      → IsRegistered p (add p alarm m)
  unfolding add
  add-IsRegistered none m v small = v
  add-IsRegistered (some a) m v small = elim (Bool-cases (ltb (timestamp_sec a) 1)) [
    | inl t ↦ rw (add, t) v
    | inr t ↦ add-IsRegistered_present a m v (ground arith) (small a refl)
  ]
