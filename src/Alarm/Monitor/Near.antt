-- ===== src/Alarm/Monitor/Near.antt =====
-- The registered alarm against the soonest one in the queue.
use packages_modules_stats_d.Common.{
  ℕ, ◌+◌, ◌*◌, ◌^◌, ◌≤◌, ◌<◌, ◌≡◌, Option, none, some, true, List, [], ◌∷◌, Eq, arith, Option-cases,
  inl, inr, subst,
}
use packages_modules_stats_d.Alarm.Queue.{PriorityQueue}
use packages_modules_stats_d.Alarm.Monitor.{AlarmCall, AlarmMonitor, update_alarm, cancel_alarm}

-- The time in the latest call of the two callbacks, with or without a service; a cancel counts as 0.
unfoldable pub told : {S : Type 0} → List (AlarmCall S) → ℕ
told [] = 0
told (update_alarm s ms ∷ calls) = ms
told (cancel_alarm s ∷ calls) = 0

-- The latest of the calls.
abbrev pub latest : {S : Type 0} → List (AlarmCall S) → Option (AlarmCall S)
latest [] = none
latest (call ∷ calls) = some call

-- What a companion service knows: there is none, or there is no registered alarm, or the latest call
-- of the callbacks told this very service the registered time in milliseconds.
pub data IsTold {S : Type 0} (service : Option S) (registered : ℕ) (calls : List (AlarmCall S))
    : Type 0 where
  unlinked : service ≡ none → IsTold service registered calls
  idle : registered ≡ 0 → IsTold service registered calls
  sent :
      latest calls ≡ some (update_alarm service (registered * 1000))
      → IsTold service registered calls

-- The registered time against the soonest one, `d` apart at most; no alarm, no registered time.
abbrev pub IsNear : {A : Type 0} → (A → ℕ) → ℕ → ℕ → Option A → Type 0
IsNear timestamp_sec registered d none = registered ≡ 0
IsNear timestamp_sec registered d (some a) =
    (1 ≤ registered) × (registered ≤ timestamp_sec a + d) × (timestamp_sec a ≤ registered + d)

module _ {Q A : Type 0} ⦃e : Eq A⦄ {timestamp_sec : A → ℕ}
    (p : PriorityQueue Q A timestamp_sec) where
  pub near_held :
      (q : Q) (r d : ℕ)
      → p.IsValid q
      → IsNear timestamp_sec r d (p.top q)
      → (x : A) → p.contains q x ≡ true
      → (1 ≤ r) × (r ≤ timestamp_sec x + d)
  near_held q r d v near x t = elim (Option-cases (p.top q)) [
    | inl h ↦ ground (arith, p.top_none q x v h)
    | inr (a, h) ↦
        let (low, up, down) = subst (IsNear timestamp_sec r d) h near in
        (low, omega (arith, up, p.top_least q a x v h t))
  ]

  -- A registered time has an alarm that is not much later.
  pub near_soonest :
      (q : Q) (r d : ℕ)
      → p.IsValid q
      → IsNear timestamp_sec r d (p.top q)
      → 1 ≤ r
      → (a : A) × (p.contains q a ≡ true) × (timestamp_sec a ≤ r + d)
  near_soonest q r d v near low = elim (Option-cases (p.top q)) [
    | inl h ↦ let zero_r = subst (IsNear timestamp_sec r d) h near in absurd (omega (arith, zero_r))
    | inr (a, h) ↦
        let (low, up, down) = subst (IsNear timestamp_sec r d) h near in
        (a, p.contains-top q a v h, down)
  ]

  pub held-IsNear :
      (q : Q) (r d : ℕ) (a : A)
      → p.IsValid q
      → p.contains q a ≡ true
      → timestamp_sec a ≤ r + d
      → ((x : A) → p.contains q x ≡ true → (1 ≤ r) × (r ≤ timestamp_sec x + d))
      → IsNear timestamp_sec r d (p.top q)
  held-IsNear q r d a v t down held = elim (Option-cases (p.top q)) [
    | inl h ↦ ground (arith, p.top_none q a v h)
    | inr (b, h) ↦
        let (low, up) = held b (p.contains-top q b v h) in
        rw h (low, up, omega (arith, p.top_least q b a v h t))
  ]

module _ {Q A S : Type 0} ⦃e : Eq A⦄ {timestamp_sec : A → ℕ}
    (p : PriorityQueue Q A timestamp_sec) where
  pub record IsRegistered (m : AlarmMonitor Q S) : Type 0 where
    pub valid : p.IsValid m.pq
    pub small :
        (x : A)
        → p.contains m.pq x ≡ true
        → (1 ≤ timestamp_sec x) × (timestamp_sec x + m.min_update_time_sec < 2 ^ 32)
    pub registered_small : m.registered_alarm_time_sec + m.min_update_time_sec < 2 ^ 32
    pub near : IsNear timestamp_sec m.registered_alarm_time_sec m.min_update_time_sec (p.top m.pq)
    pub told_registered : told m.calls ≡ m.registered_alarm_time_sec * 1000
    pub service_told : IsTold m.stats_companion_service m.registered_alarm_time_sec m.calls
