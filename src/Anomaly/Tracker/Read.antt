-- ===== src/Anomaly/Tracker/Read.antt =====
-- A value that was added to a past bucket is read back.
use packages_modules_stats_d.Common.{
  ℕ, zero, suc, ◌<◌, ◌≡◌, refl, ◌∙◌, Option, none, some, true, false, List, [], ◌∷◌, arith, length,
  set, Eq, beq_refl, Option-cases, inl, inr, if_both,
}
use packages_modules_stats_d.Common.Int.{ℤ, pos, ◌-ℤ◌, leb_ℤ, -ℤ_parts}
use packages_modules_stats_d.Common.Dict.{get, put, get-put}
use packages_modules_stats_d.Anomaly.Tracker.{
  Values, AnomalyTracker, Bucket, bucket_at, index, or_zero, advance_most_recent_bucket_to,
  out_of_window, add_past_bucket, update_entry, add_past_value, add_bucket_to_sum,
  get_past_bucket_value, subtract_bucket_from_sum,
}
use packages_modules_stats_d.Anomaly.Tracker.Advance.{length-advance, num-advance}

module _ {K V : Type 0} ⦃e : Eq K⦄ ⦃values : Values V⦄ where
  bucket_at-set_self :
      (buckets : List (Option (Bucket K V))) (i : ℕ) (b : Bucket K V)
      → i < length buckets
      → bucket_at (set buckets i (some b)) i ≡ some b
  bucket_at-set_self [] i b h = absurd (omega arith)
  bucket_at-set_self (x ∷ rest) zero b h = refl
  bucket_at-set_self (x ∷ rest) (suc i) b h = bucket_at-set_self rest i b (omega arith)

  -- A tracker that holds bucket `b` at number `n` of its window.
  record Holds (u : AnomalyTracker K V) (n : ℕ) (b : Bucket K V) : Type 0 where
    inside : leb_ℤ (pos n) (u.most_recent_bucket_num -ℤ pos u.num_of_past_buckets) ≡ false
    reached : leb_ℤ (pos n) u.most_recent_bucket_num ≡ true
    held : bucket_at u.past_buckets (index u n) ≡ some b

  get_past_bucket_value-Holds :
      (u : AnomalyTracker K V) (n : ℕ) (b : Bucket K V) (key : K)
      → Holds u n b
      → get_past_bucket_value u key (pos n) ≡ or_zero (get b key)
  unfolding get_past_bucket_value
  get_past_bucket_value-Holds u n b key h = ground (arith, h.inside, h.reached, h.held)

  most_recent-advance :
      (n : ℤ) (t : AnomalyTracker K V)
      → 0 < t.num_of_past_buckets
      → leb_ℤ n t.most_recent_bucket_num ≡ false
      → (advance_most_recent_bucket_to n t).most_recent_bucket_num ≡ n
  unfolding advance_most_recent_bucket_to
  most_recent-advance n t h f = ground arith

  add_past_bucket-Holds :
      (t : AnomalyTracker K V) (n : ℕ) (bucket : Bucket K V)
      → length t.past_buckets ≡ t.num_of_past_buckets
      → out_of_window t (pos n) ≡ false
      → Holds (add_past_bucket bucket (pos n) t) n bucket
  unfolding add_past_bucket
  add_past_bucket-Holds t n bucket c f =
      rw f (if_both At (leb_ℤ (pos n) t.most_recent_bucket_num) _ _ old new)
    where
      At : AnomalyTracker K V → Type 0
      At u =
          Holds
            (record u {
              past_buckets = set u.past_buckets (index t n) (some bucket);
              sum_over_past_buckets = add_bucket_to_sum u.sum_over_past_buckets bucket;
            })
            n bucket

      old :
          leb_ℤ (pos n) t.most_recent_bucket_num ≡ true
          → At (record t {
            sum_over_past_buckets =
                subtract_bucket_from_sum t.sum_over_past_buckets
                  (bucket_at t.past_buckets (index t n));
          })
      old r = record {
        inside = ground arith;
        reached = r;
        held = bucket_at-set_self t.past_buckets (index t n) bucket (ground (arith, c));
      }

      new :
          leb_ℤ (pos n) t.most_recent_bucket_num ≡ false
          → At (advance_most_recent_bucket_to (pos n) t)
      new r =
          let some_buckets : 0 < t.num_of_past_buckets = ground arith in
          let a = length-advance (pos n) t c in
          let num = num-advance (pos n) t in
          let recent = most_recent-advance (pos n) t some_buckets r in
          record {
            inside =
                rw (recent, num) (ground (arith, -ℤ_parts (pos n) (pos t.num_of_past_buckets)));
            reached = rw recent (ground arith);
            held = rw num (
                bucket_at-set_self (advance_most_recent_bucket_to (pos n) t).past_buckets
                  (index t n) bucket (omega (arith, a, num)));
          }

  single : (key : K) (value : V) → or_zero (get ((key, value) ∷ []) key) ≡ value
  unfolding get
  single key value = ground (arith, beq_refl e key)

  update_entry-Holds :
      (t : AnomalyTracker K V) (key : K) (value : V) (n : ℕ) (bucket : Bucket K V)
      → length t.past_buckets ≡ t.num_of_past_buckets
      → out_of_window t (pos n) ≡ false
      → leb_ℤ (pos n) t.most_recent_bucket_num ≡ true
      → Holds (update_entry key value (index t n) bucket t) n (put bucket key value)
  unfolding update_entry
  update_entry-Holds t key value n bucket c f r = record {
    inside = ground arith;
    reached = r;
    held = bucket_at-set_self t.past_buckets (index t n) (put bucket key value) (ground (arith, c));
  }

  -- Whatever the arithmetic of values: on a tracker whose array has its size, a value that is added for a key at a bucket number inside the
  -- window, or after it, is what getPastBucketValue then returns for that key and number, whether
  -- the bucket existed, was empty, or had to be advanced to.
  pub get_past_bucket_value-add_past_value :
      (t : AnomalyTracker K V) (key : K) (value : V) (n : ℕ)
      → length t.past_buckets ≡ t.num_of_past_buckets
      → out_of_window t (pos n) ≡ false
      → get_past_bucket_value (add_past_value key value (pos n) t) key (pos n) ≡ value
  unfolding add_past_value
  get_past_bucket_value-add_past_value t key value n c f =
      if_both At (out_of_window t (pos n)) _ _ (λ z. cc (f, z))
        λ _. if_both At (leb_ℤ (pos n) t.most_recent_bucket_num) _ _ old (λ _. made)
    where
      At : AnomalyTracker K V → Type 0
      At u = get_past_bucket_value u key (pos n) ≡ value

      made : At (add_past_bucket ((key, value) ∷ []) (pos n) t)
      made =
          get_past_bucket_value-Holds _ n ((key, value) ∷ []) key
            (add_past_bucket-Holds t n ((key, value) ∷ []) c f)
          ∙ single key value

      old :
          leb_ℤ (pos n) t.most_recent_bucket_num ≡ true
          → At (elim (bucket_at t.past_buckets (index t n)) [
            | some bucket ↦ update_entry key value (index t n) bucket t
            | none ↦ add_past_bucket ((key, value) ∷ []) (pos n) t
          ])
      old r = elim (Option-cases (bucket_at t.past_buckets (index t n))) [
        | inl empty ↦ rw empty made
        | inr (bucket, at) ↦ rw at (
            get_past_bucket_value-Holds _ n (put bucket key value) key
              (update_entry-Holds t key value n bucket c f r)
            ∙ ground (arith, get-put bucket key key value, beq_refl e key))
      ]
