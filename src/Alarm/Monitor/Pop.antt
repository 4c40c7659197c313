-- ===== src/Alarm/Monitor/Pop.antt =====
-- popSoonerThan: exactly the alarms that are due, and the rest stays.
use packages_modules_stats_d.Common.{
  ℕ, zero, suc, ◌≤◌, ◌<◌, ◌≡◌, refl, ◌∙◌, Option, none, some, Bool, true, false, ◌&&◌, ◌||◌, List,
  [], ◌∷◌, ltb, leb, Eq, arith, if_both, Option-cases, inl, inr,
}
use packages_modules_stats_d.Alarm.Queue.{PriorityQueue}
use packages_modules_stats_d.Alarm.Monitor.{
  AlarmMonitor, pop_loop, settle, update_to_top, pop_sooner_than,
}

module _ {A : Type 0} ⦃e : Eq A⦄ where
  -- firedAlarms.count(a) > 0
  unfoldable pub has_alarm : List A → A → Bool
  has_alarm [] x = false
  has_alarm (a ∷ l) x = e.beq a x || has_alarm l x

module _ {Q A : Type 0} ⦃e : Eq A⦄ {timestamp_sec : A → ℕ}
    (p : PriorityQueue Q A timestamp_sec) where
  -- The old alarms are those of the queue that are due, and the later ones stay.
  pub record IsPopped (until : ℕ) (q : Q) (result : List A × Q) : Type 0 where
    pub valid : p.IsValid result.1
    pub old : (x : A) → has_alarm result.0 x ≡ (p.contains q x && leb (timestamp_sec x) until)
    pub unchanged : result.0 ≡ [] → result.1 ≡ q
    pub kept : (x : A) → p.contains result.1 x ≡ (p.contains q x && ltb until (timestamp_sec x))

  pub stops_IsPopped :
      (until : ℕ) (q : Q)
      → p.IsValid q
      → ((x : A) → p.contains q x ≡ true → until < timestamp_sec x)
      → IsPopped until q ([], q)
  unfolding has_alarm
  stops_IsPopped until q v later = record {
    valid = v;
    old = λ x. ground (arith, later x);
    unchanged = λ h. refl;
    kept = λ x. ground (arith, later x);
  }

  pub pop_loop-IsPopped :
      (fuel until : ℕ) (q : Q)
      → p.IsValid q
      → p.size q ≤ fuel
      → IsPopped until q (pop_loop p fuel until q)
  unfolding pop_loop has_alarm
  pop_loop-IsPopped zero until q v f =
      stops_IsPopped until q v
        (λ x t. absurd (ground (arith, p.remove_found q x v, p.size-remove q x v)))
  pop_loop-IsPopped (suc fuel) until q v f = elim (Option-cases (p.top q)) [
    | inl h ↦
        rw (pop_loop, h) (stops_IsPopped until q v (λ x t. ground (arith, p.top_none q x v h)))
    | inr (t, h) ↦
        let there = p.contains-top q t v h in
        let found = p.remove_found q t v ∙ there in
        let same = p.pop-remove-top q t v h in
        let valid : p.IsValid (p.pop q) = rw same (p.remove-IsValid q t v) in
        let smaller : p.size (p.pop q) ≤ fuel = rw same (ground (arith, p.size-remove q t v)) in
        let rest = pop_loop-IsPopped fuel until (p.pop q) valid smaller in
        rw (pop_loop, h)
          (if_both (IsPopped until q) (leb (timestamp_sec t) until) _ _
            (λ due. record {
              valid = rest.valid;
              old = λ x. ground (arith, rest.old x, same, p.contains-remove q t x v, e.beq_iff t x);
              unchanged = λ h. ground arith;
              kept =
                  λ x. ground (arith, rest.kept x, same, p.contains-remove q t x v, e.beq_iff t x);
            })
            (λ late. stops_IsPopped until q v (λ x c. ground (arith, p.top_least q t x v h c))))
  ]

module _ {A : Type 0} (timestamp_sec : A → ℕ) where
  -- The registered time after popSoonerThan.
  abbrev pub settled_time : List A → Option A → ℕ → ℕ
  settled_time [] next registered = registered
  settled_time (a ∷ old) none registered = 0
  settled_time (a ∷ old) (some next) registered = timestamp_sec next

module _ {Q A S : Type 0} ⦃e : Eq A⦄ {timestamp_sec : A → ℕ}
    (p : PriorityQueue Q A timestamp_sec) where
  settle_pq : (old : List A) (m : AlarmMonitor Q S) → (settle p old m).pq ≡ m.pq
  unfolding settle
  settle_pq [] m = refl
  settle_pq (a ∷ old) m = elim (Option-cases (p.top m.pq)) [
    | inl g ↦ rw (update_to_top, g)
    | inr (b, g) ↦ rw (update_to_top, g)
  ]

  settle_time :
      (old : List A) (m : AlarmMonitor Q S)
      → (settle p old m).registered_alarm_time_sec
        ≡ settled_time timestamp_sec old (p.top m.pq) m.registered_alarm_time_sec
  unfolding settle
  settle_time [] m = refl
  settle_time (a ∷ old) m = elim (Option-cases (p.top m.pq)) [
    | inl g ↦ rw (update_to_top, g)
    | inr (b, g) ↦ rw (update_to_top, g)
  ]

  -- On a monitor with a valid queue, popSoonerThan returns exactly the alarms of the queue that are at or
  -- before the given time and leaves exactly the later ones; the registered time is then that of the
  -- soonest left or 0 if none is, when any was returned, and what it was otherwise.
  pub pop_sooner_than-IsPopped :
      (until : ℕ) (m : AlarmMonitor Q S)
      → p.IsValid m.pq
      → let (old, r) = pop_sooner_than p until m in
        ((x : A) → has_alarm old x ≡ (p.contains m.pq x && leb (timestamp_sec x) until))
        × ((x : A) → p.contains r.pq x ≡ (p.contains m.pq x && ltb until (timestamp_sec x)))
        × p.IsValid r.pq
        × (r.registered_alarm_time_sec
            ≡ settled_time timestamp_sec old (p.top r.pq) m.registered_alarm_time_sec)
  unfolding pop_sooner_than
  pop_sooner_than-IsPopped until m v =
      let r = pop_loop-IsPopped p (p.size m.pq) until m.pq v (omega arith) in
      let old = (pop_loop p (p.size m.pq) until m.pq).0 in
      let popped = record m { pq = (pop_loop p (p.size m.pq) until m.pq).1 } in
      (
        r.old,
        rw (settle_pq old popped) r.kept,
        rw (settle_pq old popped) r.valid,
        rw (settle_pq old popped) (settle_time old popped),
      )
