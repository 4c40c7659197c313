-- ===== src/Anomaly/Tracker/Sum.antt =====
-- For whole-number values, what the sum's operations do to the sum of one key.
use packages_modules_stats_d.Common.{
  ℕ, zero, suc, ◌+◌, ◌-◌, ◌≤◌, ◌<◌, ◌≡◌, refl, Option, none, some, List, [], ◌∷◌, arith,
  if◌then◌else◌, length, set, replicate, Eq,
}
use packages_modules_stats_d.Common.Dict.{get, put, get-put, get-erase}
use packages_modules_stats_d.Anomaly.Tracker.{
  whole_values, Bucket, bucket_at, or_zero, subtract_value_from_sum, subtract_entries,
  subtract_bucket_from_sum, add_value, add_bucket_to_sum,
}

module _ {K : Type 0} ⦃e : Eq K⦄ where
  abbrev pub sum_of : Bucket K ℕ → K → ℕ
  sum_of sum key = or_zero (get sum key)

  abbrev pub at_key : K → K → ℕ → ℕ
  at_key k j v = if e.beq k j then v else 0

  -- What a bucket holds for a key: the sum of its entries for it, of which a map has one at most.
  unfoldable pub entries_sum : Bucket K ℕ → K → ℕ
  entries_sum [] j = 0
  entries_sum ((k, v) ∷ rest) j = at_key k j v + entries_sum rest j

  unfoldable pub slot_sum : Option (Bucket K ℕ) → K → ℕ
  unfolding entries_sum
  slot_sum none j = 0
  slot_sum (some b) j = entries_sum b j

  -- What all stored buckets hold for a key.
  pub total : List (Option (Bucket K ℕ)) → K → ℕ
  unfolding slot_sum
  total [] j = 0
  total (s ∷ rest) j = slot_sum s j + total rest j

  pub sum_of-subtract_value :
      (sum : Bucket K ℕ) (k : K) (v : ℕ) (j : K)
      → sum_of (subtract_value_from_sum sum k v) j ≡ sum_of sum j - at_key k j v
  unfolding subtract_value_from_sum
  sum_of-subtract_value sum k v j =
      ground (arith, e.beq_iff k j, get-erase sum k j, get-put sum k j (or_zero (get sum k) - v))

  sum_of-subtract_entries :
      (sum b : Bucket K ℕ) (j : K)
      → sum_of (subtract_entries sum b) j ≡ sum_of sum j - entries_sum b j
  unfolding subtract_entries entries_sum
  sum_of-subtract_entries sum [] j = omega arith
  sum_of-subtract_entries sum ((k, v) ∷ rest) j = omega (
    arith,
    sum_of-subtract_entries (subtract_value_from_sum sum k v) rest j,
    sum_of-subtract_value sum k v j,
  )

  pub sum_of-subtract_bucket :
      (sum : Bucket K ℕ) (s : Option (Bucket K ℕ)) (j : K)
      → sum_of (subtract_bucket_from_sum sum s) j ≡ sum_of sum j - slot_sum s j
  unfolding subtract_bucket_from_sum slot_sum
  sum_of-subtract_bucket sum none j = omega arith
  sum_of-subtract_bucket sum (some b) j = sum_of-subtract_entries sum b j

  pub sum_of-add_value :
      (sum : Bucket K ℕ) (k : K) (v : ℕ) (j : K)
      → sum_of (add_value sum k v) j ≡ sum_of sum j + at_key k j v
  unfolding add_value
  sum_of-add_value sum k v j =
      ground (arith, e.beq_iff k j, get-put sum k j (or_zero (get sum k) + v))

  pub sum_of-add_bucket :
      (sum b : Bucket K ℕ) (j : K)
      → sum_of (add_bucket_to_sum sum b) j ≡ sum_of sum j + entries_sum b j
  unfolding add_bucket_to_sum entries_sum
  sum_of-add_bucket sum [] j = omega arith
  sum_of-add_bucket sum ((k, v) ∷ rest) j =
      omega (arith, sum_of-add_bucket (add_value sum k v) rest j, sum_of-add_value sum k v j)

  -- Writing a slot replaces its share of the total.
  pub total-set :
      (buckets : List (Option (Bucket K ℕ))) (i : ℕ) (s : Option (Bucket K ℕ)) (j : K)
      → i < length buckets
      → total (set buckets i s) j + slot_sum (bucket_at buckets i) j
        ≡ total buckets j + slot_sum s j
  unfolding total
  total-set [] i s j h = absurd (omega arith)
  total-set (x ∷ rest) zero s j h = omega arith
  total-set (x ∷ rest) (suc i) s j h = omega (arith, total-set rest i s j (omega arith))

  pub slot_le_total :
      (buckets : List (Option (Bucket K ℕ))) (i : ℕ) (j : K)
      → slot_sum (bucket_at buckets i) j ≤ total buckets j
  unfolding total slot_sum
  slot_le_total [] i j = omega arith
  slot_le_total (x ∷ rest) zero j = omega arith
  slot_le_total (x ∷ rest) (suc i) j = omega (arith, slot_le_total rest i j)

  pub total-replicate : (n : ℕ) (j : K) → total (replicate n none) j ≡ 0
  unfolding total slot_sum
  total-replicate zero j = refl
  total-replicate (suc n) j = omega (arith, total-replicate n j)

  -- Replacing an entry of a bucket.
  pub entries_sum-put :
      (b : Bucket K ℕ) (k : K) (v : ℕ) (j : K)
      → entries_sum (put b k v) j + at_key k j (or_zero (get b k)) ≡ entries_sum b j + at_key k j v
  unfolding entries_sum put get
  entries_sum-put [] k v j = ground arith
  entries_sum-put ((i, w) ∷ rest) k v j = ground (arith, e.beq_iff i k, entries_sum-put rest k v j)

  pub entry_le : (b : Bucket K ℕ) (k j : K) → at_key k j (or_zero (get b k)) ≤ entries_sum b j
  unfolding entries_sum get
  entry_le [] k j = ground arith
  entry_le ((i, w) ∷ rest) k j = ground (arith, e.beq_iff i k, entry_le rest k j)
