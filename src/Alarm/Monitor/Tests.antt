-- ===== src/Alarm/Monitor/Tests.antt =====
-- The alarm monitor over the priority queue, at concrete alarms: the numbers, at themselves as times.
use packages_modules_stats_d.Common.{ℕ, ◌≡◌, refl, some, List, [], ◌∷◌, nat_eq, arith, leb, ◌&&◌}
use packages_modules_stats_d.Common.Dict.{get, put, erase}
use packages_modules_stats_d.Alarm.Heap
use packages_modules_stats_d.Alarm.Heap.{IndexedPriorityQueue}
use packages_modules_stats_d.Alarm.Queue.{PriorityQueue, heap_queue}
use packages_modules_stats_d.Alarm.Monitor.{
  AlarmMonitor, start, add, remove_alarm, set_stats_companion_service, pop_sooner_than,
}
use packages_modules_stats_d.Alarm.Monitor.Pop.{has_alarm, pop_sooner_than-IsPopped}
use packages_modules_stats_d.Alarm.Monitor.Near.{IsNear, IsTold}
use packages_modules_stats_d.Alarm.Monitor.Run.{
  MonitorCall, set_service, add_alarm, drop_alarm, step, run, AddsFit, run-IsRegistered,
}

abbrev as_time : ℕ → ℕ
as_time n = n

abbrev queue : PriorityQueue (IndexedPriorityQueue ℕ) ℕ as_time
queue = heap_queue as_time

abbrev calls : List (MonitorCall ℕ ℕ)
calls =
    set_service (some 9)
    ∷ add_alarm (some 100)
    ∷ add_alarm (some 97)
    ∷ add_alarm (some 50)
    ∷ drop_alarm (some 50)
    ∷ add_alarm (some 200)
    ∷ add_alarm (some 0)
    ∷ []

abbrev monitor : AlarmMonitor (IndexedPriorityQueue ℕ) ℕ
monitor = run queue calls (start queue 5)

monitor_registered : monitor.registered_alarm_time_sec ≡ 97
unfolding run step add remove_alarm set_stats_companion_service heap_queue Heap.push Heap.remove
    Heap.sift_up Heap.sift_down Heap.swap_indices Heap.contains_alarm Heap.higher Heap.child_of
    Heap.fill_gap get put erase
monitor_registered = refl

fits : AddsFit as_time 5 calls
unfolding AddsFit
fits = ground arith

run-IsRegistered_example :
    IsNear as_time monitor.registered_alarm_time_sec 5 (queue.top monitor.pq)
    × IsTold monitor.stats_companion_service monitor.registered_alarm_time_sec monitor.calls
run-IsRegistered_example = (
  (run-IsRegistered queue 5 calls (omega arith) fits).1,
  (run-IsRegistered queue 5 calls (omega arith) fits).3,
)

monitor-IsValid : queue.IsValid monitor.pq
monitor-IsValid = (run-IsRegistered queue 5 calls (omega arith) fits).0

pop_sooner_than-IsPopped_example :
    has_alarm (pop_sooner_than queue 120 monitor).0 97
    ≡ (queue.contains monitor.pq 97 && leb 97 120)
pop_sooner_than-IsPopped_example = (pop_sooner_than-IsPopped queue 120 monitor monitor-IsValid).0 97
