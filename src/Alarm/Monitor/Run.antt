-- ===== src/Alarm/Monitor/Run.antt =====
-- Any sequence of calls on a new monitor.
use packages_modules_stats_d.Common.{
  ℕ, ◌+◌, ◌*◌, ◌^◌, ◌<◌, ◌≡◌, refl, ◌∙◌, Option, none, some, List, [], ◌∷◌, Eq, arith, Option-cases,
  inl, inr, subst,
}
use packages_modules_stats_d.Alarm.Queue.{PriorityQueue}
use packages_modules_stats_d.Alarm.Monitor.{
  AlarmMonitor, update_to_top, cancel_registered_alarm_time, start, set_stats_companion_service,
  add, remove_alarm, settle, pop_sooner_than, pop_loop,
}
use packages_modules_stats_d.Alarm.Monitor.Near.{told, IsNear, IsTold, IsRegistered}
use packages_modules_stats_d.Alarm.Monitor.Adding.{add-IsRegistered}
use packages_modules_stats_d.Alarm.Monitor.Steps.{
  start-IsRegistered, set_stats_companion_service-IsRegistered, remove_alarm-IsRegistered,
  pop_sooner_than-IsRegistered,
}

pub data MonitorCall (A S : Type 0) : Type 0 where
  set_service : Option S → MonitorCall A S
  add_alarm : Option A → MonitorCall A S
  drop_alarm : Option A → MonitorCall A S
  pop_alarms : ℕ → MonitorCall A S

module _ {Q A S : Type 0} ⦃e : Eq A⦄ {timestamp_sec : A → ℕ}
    (p : PriorityQueue Q A timestamp_sec) where
  unfoldable pub step : MonitorCall A S → AlarmMonitor Q S → AlarmMonitor Q S
  step (set_service service) m = set_stats_companion_service p service m
  step (add_alarm alarm) m = add p alarm m
  step (drop_alarm alarm) m = remove_alarm p alarm m
  step (pop_alarms until) m = (pop_sooner_than p until m).1

  unfoldable pub run : List (MonitorCall A S) → AlarmMonitor Q S → AlarmMonitor Q S
  run [] m = m
  run (c ∷ calls) m = run calls (step c m)

-- The time of an added alarm and the least difference have no overflow in their sum.
unfoldable pub AddsFit : {A S : Type 0} → (A → ℕ) → ℕ → List (MonitorCall A S) → Type 0
AddsFit timestamp_sec d [] = Unit
AddsFit timestamp_sec d (add_alarm (some a) ∷ calls) =
    (timestamp_sec a + d < 2 ^ 32) × AddsFit timestamp_sec d calls
AddsFit timestamp_sec d (_ ∷ calls) = AddsFit timestamp_sec d calls

module _ {Q A S : Type 0} ⦃e : Eq A⦄ {timestamp_sec : A → ℕ}
    (p : PriorityQueue Q A timestamp_sec) where
  min_of_update :
      (x m : AlarmMonitor Q S)
      → x.min_update_time_sec ≡ m.min_update_time_sec
      → (update_to_top p x m).min_update_time_sec ≡ m.min_update_time_sec
  min_of_update x m h = elim (Option-cases (p.top m.pq)) [
    | inl g ↦ rw (update_to_top, g) h
    | inr (a, g) ↦ rw (update_to_top, g)
  ]

  settle_min :
      (old : List A) (m : AlarmMonitor Q S)
      → (settle p old m).min_update_time_sec ≡ m.min_update_time_sec
  unfolding settle
  settle_min [] m = refl
  settle_min (a ∷ old) m = min_of_update (cancel_registered_alarm_time m) m refl

  step_min :
      (c : MonitorCall A S) (m : AlarmMonitor Q S)
      → (step p c m).min_update_time_sec ≡ m.min_update_time_sec
  unfolding step set_stats_companion_service add remove_alarm pop_sooner_than
  step_min (set_service none) m = refl
  step_min (set_service (some s)) m =
      let linked = record m { stats_companion_service = some s } in min_of_update linked linked refl
  step_min (add_alarm none) m = refl
  step_min (add_alarm (some a)) m = ground arith
  step_min (drop_alarm none) m = refl
  step_min (drop_alarm (some a)) m = ground arith
  step_min (pop_alarms until) m =
      settle_min (pop_loop p (p.size m.pq) until m.pq).0
        (record m { pq = (pop_loop p (p.size m.pq) until m.pq).1 })

  run_min :
      (calls : List (MonitorCall A S)) (m : AlarmMonitor Q S)
      → (run p calls m).min_update_time_sec ≡ m.min_update_time_sec
  unfolding run
  run_min [] m = refl
  run_min (c ∷ calls) m = run_min calls (step p c m) ∙ step_min c m

  run_from :
      (calls : List (MonitorCall A S)) (m : AlarmMonitor Q S)
      → IsRegistered p m
      → AddsFit timestamp_sec m.min_update_time_sec calls
      → IsRegistered p (run p calls m)
  unfolding run step AddsFit
  run_from [] m v f = v
  run_from (set_service s ∷ calls) m v f =
      run_from calls (step p (set_service s) m) (set_stats_companion_service-IsRegistered p s m v)
        (rw (step_min (set_service s) m) f)
  run_from (add_alarm none ∷ calls) m v f =
      run_from calls (step p (add_alarm none) m) (add-IsRegistered p none m v (λ a h. ground arith))
        (rw (step_min (add_alarm none) m) f)
  run_from (add_alarm (some a) ∷ calls) m v (h, f) =
      run_from calls (step p (add_alarm (some a)) m)
        (add-IsRegistered p (some a) m v (λ b g. ground arith))
        (rw (step_min (add_alarm (some a)) m) f)
  run_from (drop_alarm a ∷ calls) m v f =
      run_from calls (step p (drop_alarm a) m) (remove_alarm-IsRegistered p a m v)
        (rw (step_min (drop_alarm a) m) f)
  run_from (pop_alarms until ∷ calls) m v f =
      run_from calls (step p (pop_alarms until) m) (pop_sooner_than-IsRegistered p until m v)
        (rw (step_min (pop_alarms until) m) f)

  -- After any calls on a new monitor, whose least difference d is below 2 ^ 32 and whose added alarms
  -- have times that added to d stay below it: the queue is valid, the registered time is 0
  -- if the queue is empty, and otherwise it is positive and differs by at most d from the soonest alarm;
  -- in milliseconds it is the time in the latest call of the two callbacks, a cancel counting as 0;
  -- and if there is a companion service and a registered time, that call was made with this service.
  pub run-IsRegistered :
      (d : ℕ) (calls : List (MonitorCall A S))
      → d < 2 ^ 32
      → AddsFit timestamp_sec d calls
      → let m = run p calls (start p d) in
        p.IsValid m.pq
        × IsNear timestamp_sec m.registered_alarm_time_sec d (p.top m.pq)
        × (told m.calls ≡ m.registered_alarm_time_sec * 1000)
        × IsTold m.stats_companion_service m.registered_alarm_time_sec m.calls
  run-IsRegistered d calls h f =
      let v = run_from calls (start p d) (start-IsRegistered p d h) f in
      (
        v.valid,
        subst
            (λ k.
              IsNear timestamp_sec (run p calls (start p d)).registered_alarm_time_sec k
                (p.top (run p calls (start p d)).pq))
            (run_min calls (start p d)) v.near,
        v.told_registered,
        v.service_told,
      )
