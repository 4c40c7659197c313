-- ===== src/Anomaly/Tracker/Calls.antt =====
-- Any calls of a tracker of whole-number values.
use packages_modules_stats_d.Common.{ℕ, List, [], ◌∷◌, arith, Eq, if_both}
use packages_modules_stats_d.Common.Int.{ℤ, pos, ◌+ℤ◌, ◌-ℤ◌, ltb_ℤ}
use packages_modules_stats_d.Anomaly.Tracker.{
  whole_values, AnomalyTracker, Alert, Bucket, reset_storage, init, blank,
  advance_most_recent_bucket_to, add_past_bucket, update_entry, add_past_value,
}
use packages_modules_stats_d.Anomaly.Tracker.Advance.{
  IsConsistent, HasBegun, reset_storage-IsConsistent, advance-IsConsistent,
}
use packages_modules_stats_d.Anomaly.Tracker.Declare.{catch_up, detect_anomaly}
use packages_modules_stats_d.Anomaly.Tracker.Consistent.{
  add_past_bucket-IsConsistent, add_past_value-IsConsistent,
}

module _ {K : Type 0} ⦃e : Eq K⦄ where
  catch_up-IsConsistent :
      (t : AnomalyTracker K ℕ) (n : ℤ) → IsConsistent t → IsConsistent (catch_up n t)
  unfolding catch_up
  catch_up-IsConsistent t n c =
      if_both IsConsistent (ltb_ℤ (t.most_recent_bucket_num +ℤ pos 1) n) _ _
        (λ _. advance-IsConsistent (n -ℤ pos 1) t c) (λ _. c)

  advance-HasBegun :
      (n : ℤ) (t : AnomalyTracker K ℕ) → HasBegun t → HasBegun (advance_most_recent_bucket_to n t)
  unfolding advance_most_recent_bucket_to
  advance-HasBegun n t b = ground arith

  add_past_bucket-HasBegun :
      (t : AnomalyTracker K ℕ) (bucket : Bucket K ℕ) (n : ℤ)
      → HasBegun t
      → HasBegun (add_past_bucket bucket n t)
  unfolding add_past_bucket
  add_past_bucket-HasBegun t bucket n b = ground (arith, advance-HasBegun n t b)

  add_past_value-HasBegun :
      (t : AnomalyTracker K ℕ) (key : K) (value : ℕ) (n : ℤ)
      → HasBegun t
      → HasBegun (add_past_value key value n t)
  unfolding add_past_value update_entry
  add_past_value-HasBegun t key value n b =
      ground (arith, add_past_bucket-HasBegun t ((key, value) ∷ []) n b)

  catch_up-HasBegun : (t : AnomalyTracker K ℕ) (n : ℤ) → HasBegun t → HasBegun (catch_up n t)
  unfolding catch_up
  catch_up-HasBegun t n b = ground (arith, advance-HasBegun (n -ℤ pos 1) t b)

-- The calls that a metric producer makes.
pub data Call (K : Type 0) : Type 0 where
  adds_bucket : Bucket K ℕ → ℤ → Call K
  adds_value : K → ℕ → ℤ → Call K
  detects : ℤ → K → ℕ → Call K

module _ {K : Type 0} ⦃e : Eq K⦄ where
  pub step : AnomalyTracker K ℕ → Call K → AnomalyTracker K ℕ
  step t (adds_bucket bucket n) = add_past_bucket bucket n t
  step t (adds_value key value n) = add_past_value key value n t
  step t (detects n key value) = (detect_anomaly n key value t).0

  unfoldable pub run : AnomalyTracker K ℕ → List (Call K) → AnomalyTracker K ℕ
  unfolding step
  run t [] = t
  run t (c ∷ cs) = run (step t c) cs

  run-IsConsistent :
      (t : AnomalyTracker K ℕ) (cs : List (Call K))
      → HasBegun t
      → IsConsistent t
      → IsConsistent (run t cs)
  unfolding run detect_anomaly
  run-IsConsistent t [] b c = c
  run-IsConsistent t (adds_bucket bucket n ∷ cs) b c =
      run-IsConsistent (add_past_bucket bucket n t) cs (add_past_bucket-HasBegun t bucket n b)
        (add_past_bucket-IsConsistent t bucket n b c)
  run-IsConsistent t (adds_value key value n ∷ cs) b c =
      run-IsConsistent (add_past_value key value n t) cs (add_past_value-HasBegun t key value n b)
        (add_past_value-IsConsistent t key value n b c)
  run-IsConsistent t (detects n key value ∷ cs) b c =
      run-IsConsistent (catch_up n t) cs (catch_up-HasBegun t n b) (catch_up-IsConsistent t n c)

  -- For a new tracker whose values are whole numbers, as those of Count and Duration metrics are, after
  -- any calls: the cached sum of each key is what the stored past buckets hold for it, and the array
  -- has its configured size.
  pub run-init-IsConsistent :
      (alert : Alert ℕ) (cs : List (Call K)) → IsConsistent (run (init alert) cs)
  unfolding init
  run-init-IsConsistent alert cs =
      run-IsConsistent (reset_storage (blank alert)) cs (unfold reset_storage in omega arith)
        (reset_storage-IsConsistent (blank alert))
