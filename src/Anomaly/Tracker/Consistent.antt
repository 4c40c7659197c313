-- ===== src/Anomaly/Tracker/Consistent.antt =====
-- For whole-number values, the two functions addPastBucket keep the cached sum exact.
use packages_modules_stats_d.Common.{
  ℕ, ◌+◌, ◌<◌, ◌≡◌, ◌∙◌, none, some, false, [], ◌∷◌, arith, length, set, Eq, length-set, if_both,
  Option-cases, inl, inr,
}
use packages_modules_stats_d.Common.Int.{ℤ, pos, negsuc, leb_ℤ, pos_part}
use packages_modules_stats_d.Common.Dict.{get, put}
use packages_modules_stats_d.Anomaly.Tracker.{
  whole_values, AnomalyTracker, Bucket, bucket_at, index, or_zero, advance_most_recent_bucket_to,
  out_of_window, add_past_bucket, update_entry, add_past_value, subtract_value_from_sum,
  subtract_bucket_from_sum, add_bucket_to_sum,
}
use packages_modules_stats_d.Anomaly.Tracker.Sum.{
  sum_of, slot_sum, total, sum_of-subtract_value, sum_of-subtract_bucket, sum_of-add_value,
  sum_of-add_bucket, total-set, slot_le_total, entries_sum-put, entry_le,
}
use packages_modules_stats_d.Anomaly.Tracker.Advance.{
  IsConsistent, HasBegun, advance-IsConsistent, bucket_at-advance, num-advance,
}

module _ {K : Type 0} ⦃e : Eq K⦄ where
  abbrev store : Bucket K ℕ → ℕ → AnomalyTracker K ℕ → AnomalyTracker K ℕ
  store bucket i u = record u {
    past_buckets = set u.past_buckets i (some bucket);
    sum_over_past_buckets = add_bucket_to_sum u.sum_over_past_buckets bucket;
  }

  -- Storing a bucket, when the sum has lost what the slot holds.
  store-IsConsistent :
      (u : AnomalyTracker K ℕ) (bucket : Bucket K ℕ) (i : ℕ)
      → i < u.num_of_past_buckets
      → length u.past_buckets ≡ u.num_of_past_buckets
      → ((j : K)
          → sum_of u.sum_over_past_buckets j + slot_sum (bucket_at u.past_buckets i) j
            ≡ total u.past_buckets j)
      → IsConsistent (store bucket i u)
  unfolding slot_sum
  store-IsConsistent u bucket i h sized cached = record {
    sized = length-set u.past_buckets i (some bucket) ∙ sized;
    cached = λ j. omega (
      arith,
      cached j,
      sum_of-add_bucket u.sum_over_past_buckets bucket j,
      total-set u.past_buckets i (some bucket) j (omega (arith, sized)),
    );
  }

  pub add_past_bucket-IsConsistent :
      (t : AnomalyTracker K ℕ) (bucket : Bucket K ℕ) (n : ℤ)
      → HasBegun t
      → IsConsistent t
      → IsConsistent (add_past_bucket bucket n t)
  unfolding add_past_bucket
  add_past_bucket-IsConsistent t bucket (negsuc n) b c =
      if_both IsConsistent (out_of_window t (negsuc n)) _ _ (λ _. c) (λ f. absurd (ground arith))
  add_past_bucket-IsConsistent t bucket (pos n) b c =
      if_both IsConsistent (out_of_window t (pos n)) _ _ (λ _. c)
        λ f.
          if_both (λ u. IsConsistent (store bucket (index t n) u))
            (leb_ℤ (pos n) t.most_recent_bucket_num) _ _
            (λ _.
              store-IsConsistent _ bucket (index t n) (in_range f) c.sized (replaced (index t n)))
            (λ new. advanced f new)
    where
      some_buckets : out_of_window t (pos n) ≡ false → 0 < t.num_of_past_buckets
      some_buckets f = ground arith

      in_range : out_of_window t (pos n) ≡ false → index t n < t.num_of_past_buckets
      in_range f = omega (arith, some_buckets f)

      replaced :
          (i : ℕ) (j : K)
          → sum_of (subtract_bucket_from_sum t.sum_over_past_buckets (bucket_at t.past_buckets i)) j
              + slot_sum (bucket_at t.past_buckets i) j
            ≡ total t.past_buckets j
      replaced i j = omega (
        arith,
        c.cached j,
        sum_of-subtract_bucket t.sum_over_past_buckets (bucket_at t.past_buckets i) j,
        slot_le_total t.past_buckets i j,
      )

      advanced :
          out_of_window t (pos n) ≡ false
          → leb_ℤ (pos n) t.most_recent_bucket_num ≡ false
          → IsConsistent (store bucket (index t n) (advance_most_recent_bucket_to (pos n) t))
      advanced f new =
          let a = advance-IsConsistent (pos n) t c in
          store-IsConsistent _ bucket (index t n) (omega (arith, num-advance (pos n) t, in_range f))
            a.sized
            (λ j.
              rw (bucket_at-advance n t b (some_buckets f) new)
                (unfold slot_sum in omega (arith, a.cached j)))

  update_entry-IsConsistent :
      (t : AnomalyTracker K ℕ) (key : K) (value i : ℕ) (bucket : Bucket K ℕ)
      → i < t.num_of_past_buckets
      → bucket_at t.past_buckets i ≡ some bucket
      → IsConsistent t
      → IsConsistent (update_entry key value i bucket t)
  unfolding update_entry slot_sum
  update_entry-IsConsistent t key value i bucket h at c = record {
    sized = length-set t.past_buckets i (some (put bucket key value)) ∙ c.sized;
    cached = λ j. ground (
      arith,
      c.cached j,
      c.sized,
      sum_of-subtract_value t.sum_over_past_buckets key (or_zero (get bucket key)) j,
      sum_of-add_value t.sum_over_past_buckets key value j,
      sum_of-add_value
          (subtract_value_from_sum t.sum_over_past_buckets key (or_zero (get bucket key))) key value
          j,
      entries_sum-put bucket key value j,
      slot_le_total t.past_buckets i j,
      total-set t.past_buckets i (some (put bucket key value)) j,
      entry_le bucket key j,
    );
  }

  pub add_past_value-IsConsistent :
      (t : AnomalyTracker K ℕ) (key : K) (value : ℕ) (n : ℤ)
      → HasBegun t
      → IsConsistent t
      → IsConsistent (add_past_value key value n t)
  unfolding add_past_value
  add_past_value-IsConsistent t key value n b c =
      if_both IsConsistent (out_of_window t n) _ _ (λ _. c)
        λ f.
          if_both IsConsistent (leb_ℤ n t.most_recent_bucket_num) _ _ (λ _. old f)
            (λ _. add_past_bucket-IsConsistent t ((key, value) ∷ []) n b c)
    where
      old :
          out_of_window t n ≡ false
          → IsConsistent (elim (bucket_at t.past_buckets (index t (pos_part n))) [
            | some bucket ↦ update_entry key value (index t (pos_part n)) bucket t
            | none ↦ add_past_bucket ((key, value) ∷ []) n t
          ])
      old f = elim (Option-cases (bucket_at t.past_buckets (index t (pos_part n)))) [
        | inl none_at ↦ rw none_at (add_past_bucket-IsConsistent t ((key, value) ∷ []) n b c)
        | inr (bucket, at) ↦
            rw at (update_entry-IsConsistent t key value _ bucket (ground arith) at c)
      ]
