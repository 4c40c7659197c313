-- ===== src/Anomaly/Tracker/Advance.antt =====
-- For whole-number values, the cached sum is exact: for each key it is what the stored buckets hold, after every operation.
use packages_modules_stats_d.Common.{
  ℕ, zero, suc, ◌+◌, ◌-◌, ◌<◌, ◌≡◌, refl, sym, subst, ◌∙◌, Option, none, false, List, [], ◌∷◌,
  arith, length, set, replicate, Eq, length-set, length-replicate, if_both, ◌==◌,
}
use native.Mathlib.Nat.{add-zero}
use packages_modules_stats_d.Common.Int.{ℤ, pos, ◌+ℤ◌, ◌-ℤ◌, leb_ℤ, pos_part, negsuc, ◌≤ℤ◌}
use packages_modules_stats_d.Common.Dict.{get}
use packages_modules_stats_d.Anomaly.Tracker.{
  whole_values, Values, AnomalyTracker, Bucket, bucket_at, index, reset_storage, clear_slots,
  advance_most_recent_bucket_to, subtract_bucket_from_sum,
}
use packages_modules_stats_d.Anomaly.Tracker.Sum.{
  sum_of, slot_sum, total, sum_of-subtract_bucket, total-set, total-replicate,
}

-- The array has its size, and the cached sum of each key is the total of the stored buckets.
pub record IsConsistent {K : Type 0} ⦃e : Eq K⦄ (t : AnomalyTracker K ℕ) : Type 0 where
  pub sized : length t.past_buckets ≡ t.num_of_past_buckets
  pub cached : (j : K) → sum_of t.sum_over_past_buckets j ≡ total t.past_buckets j

-- The rounds of the loop from the number after the most recent one to `n`.
rounds :
    (n : ℕ) (m : ℤ)
    → negsuc 0 ≤ℤ m
    → leb_ℤ (pos n) m ≡ false
    → (c : ℕ) × (pos_part (pos n -ℤ m) ≡ suc c) × (pos_part (m +ℤ pos 1) + c ≡ n)
unfolding ◌+ℤ◌ ◌-ℤ◌
rounds n (pos k) b f = (n - (k + 1), ground arith, ground arith)
rounds n (negsuc zero) b f = (n, ground arith, ground arith)
rounds n (negsuc (suc k)) b f = absurd (omega arith)

module _ {K : Type 0} ⦃e : Eq K⦄ where
  pub reset_storage-IsConsistent : (t : AnomalyTracker K ℕ) → IsConsistent (reset_storage t)
  unfolding reset_storage get
  reset_storage-IsConsistent t = record {
    sized = length-replicate t.num_of_past_buckets none;
    cached = λ j. sym (total-replicate t.num_of_past_buckets j);
  }

  -- Emptying one slot.
  clear_slot-IsConsistent :
      (t : AnomalyTracker K ℕ) (i : ℕ)
      → 0 < t.num_of_past_buckets
      → IsConsistent t
      → IsConsistent (record t {
        sum_over_past_buckets =
            subtract_bucket_from_sum t.sum_over_past_buckets (bucket_at t.past_buckets (index t i));
        past_buckets = set t.past_buckets (index t i) none;
      })
  clear_slot-IsConsistent t i h c = record {
    sized = length-set t.past_buckets (index t i) none ∙ c.sized;
    cached = λ j.
        unfold slot_sum in
        omega (
          arith,
          c.cached j,
          c.sized,
          sum_of-subtract_bucket t.sum_over_past_buckets (bucket_at t.past_buckets (index t i)) j,
          total-set t.past_buckets (index t i) none j (omega (arith, c.sized)),
        );
  }

  clear_slots-IsConsistent :
      (count i : ℕ) (t : AnomalyTracker K ℕ)
      → 0 < t.num_of_past_buckets
      → IsConsistent t
      → IsConsistent (clear_slots count i t)
  unfolding clear_slots
  clear_slots-IsConsistent zero i t h c = c
  clear_slots-IsConsistent (suc count) i t h c =
      clear_slots-IsConsistent count (suc i)
        (record t {
          sum_over_past_buckets =
              subtract_bucket_from_sum t.sum_over_past_buckets
                (bucket_at t.past_buckets (index t i));
          past_buckets = set t.past_buckets (index t i) none;
        })
        h (clear_slot-IsConsistent t i h c)

  pub advance-IsConsistent :
      (n : ℤ) (t : AnomalyTracker K ℕ)
      → IsConsistent t
      → IsConsistent (advance_most_recent_bucket_to n t)
  unfolding advance_most_recent_bucket_to
  advance-IsConsistent n t c =
      if_both IsConsistent (t.num_of_past_buckets == 0) _ _ (λ _. c)
        λ some_buckets.
          if_both IsConsistent (leb_ℤ n t.most_recent_bucket_num) _ _ (λ _. c)
            λ _.
              if_both IsConsistent (leb_ℤ (t.most_recent_bucket_num +ℤ pos t.num_of_past_buckets) n)
                _ _ (λ _. renumbered (reset_storage-IsConsistent t))
                (λ _. renumbered (
                  clear_slots-IsConsistent (pos_part (n -ℤ t.most_recent_bucket_num))
                    (pos_part (t.most_recent_bucket_num +ℤ pos 1)) t (ground arith) c))
    where
      renumbered :
          {u : AnomalyTracker K ℕ}
          → IsConsistent u
          → IsConsistent (record u { most_recent_bucket_num = n })
      renumbered r = record { sized = r.sized; cached = r.cached }

  bucket_at-set-none :
      (buckets : List (Option (Bucket K ℕ))) (i : ℕ) → bucket_at (set buckets i none) i ≡ none
  bucket_at-set-none [] i = refl
  bucket_at-set-none (x ∷ rest) zero = refl
  bucket_at-set-none (x ∷ rest) (suc i) = bucket_at-set-none rest i

  -- The last slot that the loop empties.
  bucket_at-clear_slots :
      (count i : ℕ) (t : AnomalyTracker K ℕ)
      → bucket_at (clear_slots (suc count) i t).past_buckets (index t (i + count)) ≡ none
  unfolding clear_slots
  bucket_at-clear_slots zero i t = rw add-zero (bucket_at-set-none t.past_buckets (index t i))
  bucket_at-clear_slots (suc count) i t = rw (shift i count) (
      bucket_at-clear_slots count (suc i) (record t {
        sum_over_past_buckets =
            subtract_bucket_from_sum t.sum_over_past_buckets (bucket_at t.past_buckets (index t i));
        past_buckets = set t.past_buckets (index t i) none;
      }))
    where
      shift : (i count : ℕ) → i + suc count ≡ suc i + count
      shift i count = omega arith

  bucket_at-replicate : (n i : ℕ) → bucket_at {K = K} {V = ℕ} (replicate n none) i ≡ none
  bucket_at-replicate zero i = refl
  bucket_at-replicate (suc n) zero = refl
  bucket_at-replicate (suc n) (suc i) = bucket_at-replicate n i

  -- Numbers start at -1.
  abbrev pub HasBegun : AnomalyTracker K ℕ → Type 0
  HasBegun t = negsuc 0 ≤ℤ t.most_recent_bucket_num

  -- After an advance the slot of the number advanced to is empty.
  pub bucket_at-advance :
      (n : ℕ) (t : AnomalyTracker K ℕ)
      → HasBegun t
      → 0 < t.num_of_past_buckets
      → leb_ℤ (pos n) t.most_recent_bucket_num ≡ false
      → bucket_at (advance_most_recent_bucket_to (pos n) t).past_buckets (index t n) ≡ none
  unfolding advance_most_recent_bucket_to
  bucket_at-advance n t b h f =
      if_both At (t.num_of_past_buckets == 0) _ _ (λ z. absurd (ground arith))
        λ _.
          if_both At (leb_ℤ (pos n) t.most_recent_bucket_num) _ _ (λ z. cc (f, z))
            λ _.
              if_both At (leb_ℤ (t.most_recent_bucket_num +ℤ pos t.num_of_past_buckets) (pos n)) _ _
                (λ _. bucket_at-replicate t.num_of_past_buckets (index t n)) (λ _. last)
    where
      At : AnomalyTracker K ℕ → Type 0
      At u = bucket_at u.past_buckets (index t n) ≡ none

      start : ℕ
      start = pos_part (t.most_recent_bucket_num +ℤ pos 1)

      last :
          bucket_at
            (clear_slots (pos_part (pos n -ℤ t.most_recent_bucket_num)) start t).past_buckets
            (index t n)
          ≡ none
      last =
          let (c, many, reach) = rounds n t.most_recent_bucket_num b f in
          rw many (
            subst
              (λ (k : ℕ). bucket_at (clear_slots (suc c) start t).past_buckets (index t k) ≡ none)
              reach (bucket_at-clear_slots c start t))

module _ {K V : Type 0} ⦃e : Eq K⦄ ⦃values : Values V⦄ where
  num-clear_slots :
      (count i : ℕ) (t : AnomalyTracker K V)
      → (clear_slots count i t).num_of_past_buckets ≡ t.num_of_past_buckets
  unfolding clear_slots
  num-clear_slots zero i t = refl
  num-clear_slots (suc count) i t = num-clear_slots count (suc i) (record t {
    sum_over_past_buckets =
        subtract_bucket_from_sum t.sum_over_past_buckets (bucket_at t.past_buckets (index t i));
    past_buckets = set t.past_buckets (index t i) none;
  })

  pub num-advance :
      (n : ℤ) (t : AnomalyTracker K V)
      → (advance_most_recent_bucket_to n t).num_of_past_buckets ≡ t.num_of_past_buckets
  unfolding advance_most_recent_bucket_to
  num-advance n t = ground (
    arith,
    num-clear_slots (pos_part (n -ℤ t.most_recent_bucket_num))
        (pos_part (t.most_recent_bucket_num +ℤ pos 1)) t,
  )

  length-clear_slots :
      (count i : ℕ) (t : AnomalyTracker K V)
      → length (clear_slots count i t).past_buckets ≡ length t.past_buckets
  unfolding clear_slots
  length-clear_slots zero i t = refl
  length-clear_slots (suc count) i t =
      length-clear_slots count (suc i) (record t {
        sum_over_past_buckets =
            subtract_bucket_from_sum t.sum_over_past_buckets (bucket_at t.past_buckets (index t i));
        past_buckets = set t.past_buckets (index t i) none;
      })
      ∙ length-set t.past_buckets (index t i) none

  -- An advance keeps an array of the configured size at that size.
  pub length-advance :
      (n : ℤ) (t : AnomalyTracker K V)
      → length t.past_buckets ≡ t.num_of_past_buckets
      → length (advance_most_recent_bucket_to n t).past_buckets ≡ t.num_of_past_buckets
  unfolding advance_most_recent_bucket_to reset_storage
  length-advance n t h = ground (
    arith,
    length-replicate {A = Option (Bucket K V)} t.num_of_past_buckets none,
    length-clear_slots (pos_part (n -ℤ t.most_recent_bucket_num))
        (pos_part (t.most_recent_bucket_num +ℤ pos 1)) t,
  )
