-- ===== src/Anomaly/Tracker/Tests.antt =====
-- Runs of a tracker over numbered keys, and the theorems at concrete inputs.
use packages_modules_stats_d.Common.{ℕ, ◌≡◌, refl, some, true, false, List, [], ◌∷◌, arith, nat_eq}
use packages_modules_stats_d.Common.Int.{pos, ◌+ℤ◌, ◌-ℤ◌}
use packages_modules_stats_d.Common.Dict.{get, put, erase}
use packages_modules_stats_d.Anomaly.Tracker.{
  whole_values, AnomalyTracker, Alert, init, add_past_value, get_past_bucket_value,
  get_sum_over_past_buckets,
}
use packages_modules_stats_d.Anomaly.Tracker.Advance.{IsConsistent}
use packages_modules_stats_d.Anomaly.Tracker.Calls.{
  Call, adds_bucket, adds_value, detects, run, run-init-IsConsistent,
}
use packages_modules_stats_d.Anomaly.Tracker.Read.{get_past_bucket_value-add_past_value}
use packages_modules_stats_d.Anomaly.Tracker.Declare.{declare_anomaly, skipped}
use packages_modules_stats_d.Anomaly.Tracker.Refractory.{declare_anomaly_twice}

abbrev over_ten : Alert ℕ
over_ten = record { num_buckets = 4; trigger_if_sum_gt = some 10; refractory_period_secs = some 60 }

abbrev fresh : AnomalyTracker ℕ ℕ
fresh = init over_ten

abbrev history : List (Call ℕ)
history =
    adds_value 7 5 (pos 0) ∷ adds_bucket ((7, 4) ∷ (8, 1) ∷ []) (pos 1) ∷ detects (pos 4) 7 3 ∷ []

abbrev tracker : AnomalyTracker ℕ ℕ
tracker = run fresh history

abbrev begun : AnomalyTracker ℕ ℕ
begun = run fresh []

-- Bucket 0 has left the window of three.
sum_after : get_sum_over_past_buckets (add_past_value 7 6 (pos 2) fresh) 7 ≡ 6
unfolding get_sum_over_past_buckets add_past_value init ◌+ℤ◌ ◌-ℤ◌ get put erase
sum_after = refl

tracker-IsConsistent : IsConsistent tracker
tracker-IsConsistent = run-init-IsConsistent over_ten history

read_back_example : get_past_bucket_value (add_past_value 7 6 (pos 2) begun) 7 (pos 2) ≡ 6
read_back_example =
    get_past_bucket_value-add_past_value begun 7 6 2 (run-init-IsConsistent over_ten []).sized
      (unfold run init ◌-ℤ◌ in refl)

declare_anomaly_twice_example :
    declare_anomaly false 50000000000 7 (declare_anomaly true 3000000001 7 fresh).0
    ≡ ((declare_anomaly true 3000000001 7 fresh).0, skipped)
declare_anomaly_twice_example =
    declare_anomaly_twice fresh 7 60 3000000001 50000000000 false (unfold init in refl)
      (unfold init declare_anomaly get in refl) (omega arith) (omega arith)
