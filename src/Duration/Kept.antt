-- ===== src/Duration/Kept.antt =====
-- flushCurrentBucket keeps the recorded time.
use packages_modules_stats_d.Common.{
  ℕ, zero, suc, ◌+◌, ◌-◌, ◌*◌, ◌≡◌, refl, sym, ◌∙◌, Option, none, Bool, true, false, ◌&&◌, ◌||◌,
  not, List, [], ◌∷◌, leb, if◌then◌else◌, Eq, arith, Bool-cases, inl, inr,
}
use packages_modules_stats_d.Common.Int.{ℤ, pos, ◌+ℤ◌, ◌≤ℤ◌, int_laws, +ℤ-zero}
use packages_modules_stats_d.Common.Dict.{Dict, get}
use packages_modules_stats_d.Duration.{
  past_bucket_call, OringDurationTracker, DurationValues, is_empty,
}
use packages_modules_stats_d.Duration.Flush.{
  DurationBucket, UploadThreshold, push_bucket, keys_of, flush_entry, flush_entries, fill_buckets,
  pass_buckets,
}
use packages_modules_stats_d.Duration.Conserved.{
  flushed_time, duration_of, flushed_time-push_bucket, duration_of-flush_entry,
  flushed_time-flush_entry,
}

module _ {SK : Type 0} ⦃s : Eq SK⦄ where
  unfoldable pub has_key : List SK → SK → Bool
  has_key [] x = false
  has_key (k ∷ keys) x = s.beq k x || has_key keys x

  pub duration_of-keys_of :
      (m : Dict SK DurationValues) (x : SK)
      → has_key (keys_of m) x ≡ false
      → duration_of m x ≡ pos 0
  unfolding has_key keys_of duration_of get
  duration_of-keys_of [] x h = refl
  duration_of-keys_of ((k, v) ∷ m) x h = ground (arith, duration_of-keys_of m x)

fill_none : (f : ℤ) (b : Bool) (n : ℕ) → f ≡ f +ℤ (if b then pos (0 * n) else pos 0)
fill_none f true n = omega int_laws
fill_none f false n = omega int_laws

fill_one :
    (f : ℤ) (b : Bool) (n count : ℕ)
    → f +ℤ (if b then pos n else pos 0) +ℤ (if b then pos (count * n) else pos 0)
      ≡ f +ℤ (if b then pos (suc count * n) else pos 0)
fill_one f true n count = omega int_laws
fill_one f false n count = omega int_laws

-- What a loop of the flush leaves alone.
pub record IsSame {K C SK : Type 0} (t u : OringDurationTracker K C SK) : Type 0 where
  pub started : u.started ≡ t.started
  pub state_key : u.state_values_key ≡ t.state_values_key
  pub size : u.bucket_size_ns ≡ t.bucket_size_ns
  pub number : u.current_bucket_num ≡ t.current_bucket_num
  pub origin : u.start_time_ns ≡ t.start_time_ns

module _ {K C SK : Type 0} ⦃s : Eq SK⦄ where
  pub flush_entries-IsSame :
      (full : Bool) (end_ns : ℤ) (th : Option UploadThreshold) (ct : ℤ) (keys : List SK)
      (t : OringDurationTracker K C SK) (output : Dict SK (List DurationBucket))
      → IsSame t (flush_entries full end_ns th ct keys t output).0
  unfolding flush_entries flush_entry
  flush_entries-IsSame full end_ns th ct [] t output = record {
    started = refl;
    state_key = refl;
    size = refl;
    number = refl;
    origin = refl;
  }
  flush_entries-IsSame full end_ns th ct (key ∷ keys) t output =
      let (u, o) = flush_entry full end_ns th ct key t output in
      let w = flush_entries-IsSame full end_ns th ct keys u o in
      record {
        started = w.started;
        state_key = w.state_key;
        size = w.size;
        number = w.number;
        origin = w.origin;
      }

  pub duration_of-flush_entries :
      (full : Bool) (end_ns : ℤ) (th : Option UploadThreshold) (ct : ℤ) (keys : List SK) (x : SK)
      (t : OringDurationTracker K C SK) (output : Dict SK (List DurationBucket))
      → duration_of (flush_entries full end_ns th ct keys t output).0.state_key_duration_map x
        ≡ (if has_key keys x then pos 0 else duration_of t.state_key_duration_map x)
  unfolding flush_entries has_key
  duration_of-flush_entries full end_ns th ct [] x t output = refl
  duration_of-flush_entries full end_ns th ct (key ∷ keys) x t output =
      let (u, o) = flush_entry full end_ns th ct key t output in
      ground (
        arith,
        duration_of-flush_entries full end_ns th ct keys x u o,
        duration_of-flush_entry full end_ns th ct key x t output,
      )

  pub flushed_time-flush_entries :
      (full : Bool) (end_ns ct : ℤ) (keys : List SK) (x : SK) (t : OringDurationTracker K C SK)
      (output : Dict SK (List DurationBucket))
      → ((k : SK) → pos 0 ≤ℤ duration_of t.state_key_duration_map k)
      → let (u, o) = flush_entries full end_ns none ct keys t output in
        flushed_time o x +ℤ duration_of u.state_key_duration_map x
        ≡ flushed_time output x +ℤ duration_of t.state_key_duration_map x
  unfolding flush_entries
  flushed_time-flush_entries full end_ns ct [] x t output h = refl
  flushed_time-flush_entries full end_ns ct (key ∷ keys) x t output h =
      let (u, o) = flush_entry full end_ns none ct key t output in
      let f = flushed_time output x in
      flushed_time-flush_entries full end_ns ct keys x u o
        (λ k. ground (arith, duration_of-flush_entry full end_ns none ct key k t output, h k))
      ∙ ground (
        arith,
        flushed_time-flush_entry full end_ns ct key x t output (h key),
        duration_of-flush_entry full end_ns none ct key x t output,
        s.beq_iff key x,
        +ℤ-zero (f +ℤ duration_of t.state_key_duration_map key),
        +ℤ-zero f,
      )

  pub fill_buckets_lem :
      (count i : ℕ) (full_end : ℤ) (x : SK) (t : OringDurationTracker K C SK)
      (output : Dict SK (List DurationBucket))
      → let (u, o) = fill_buckets count i full_end t output in
        IsSame t u
        × (u.state_key_duration_map ≡ t.state_key_duration_map)
        × (flushed_time o x
            ≡ flushed_time output x
              +ℤ (if s.beq t.state_values_key x then pos (count * t.bucket_size_ns) else pos 0))
  unfolding fill_buckets
  fill_buckets_lem zero i full_end x t output = (
    record { started = refl; state_key = refl; size = refl; number = refl; origin = refl },
    refl,
    fill_none (flushed_time output x) (s.beq t.state_values_key x) t.bucket_size_ns,
  )
  fill_buckets_lem (suc count) i full_end x t output =
      let begin = full_end +ℤ pos (t.bucket_size_ns * (i - 1)) in
      let info : DurationBucket = record {
        bucket_start_ns = begin;
        bucket_end_ns = begin +ℤ pos t.bucket_size_ns;
        bucket_duration = pos t.bucket_size_ns;
        condition_true_ns = pos 0;
      } in
      let u : OringDurationTracker K C SK = record t {
        anomaly_calls =
            past_bucket_call t.state_values_key (pos t.bucket_size_ns)
              (pos (t.current_bucket_num + i))
            ∷ t.anomaly_calls;
      } in
      let (w, m, h) =
        fill_buckets_lem count (suc i) full_end x u (push_bucket output t.state_values_key info) in
      (
        record {
          started = w.started;
          state_key = w.state_key;
          size = w.size;
          number = w.number;
          origin = w.origin;
        },
        m,
        h
            ∙ rw (flushed_time-push_bucket output t.state_values_key x info) (
                fill_one (flushed_time output x) (s.beq t.state_values_key x) t.bucket_size_ns
                  count),
      )

  pub pass_buckets_lem :
      (forward : ℕ) (full_end : ℤ) (x : SK) (t : OringDurationTracker K C SK)
      (output : Dict SK (List DurationBucket))
      → let (u, o) = pass_buckets forward full_end t output in
        IsSame t u
        × (u.state_key_duration_map ≡ t.state_key_duration_map)
        × (flushed_time o x
            ≡ flushed_time output x
              +ℤ (if not (is_empty t.started) && s.beq t.state_values_key x
                  then pos ((forward - 1) * t.bucket_size_ns)
                  else pos 0))
  unfolding pass_buckets
  pass_buckets_lem forward full_end x t output = elim (Bool-cases (is_empty t.started)) [
    | inl h ↦ elim (Bool-cases (leb 2 forward)) [
      | inl g ↦
          rw (pass_buckets, h, g)
            (
              record {
                started = refl;
                state_key = refl;
                size = refl;
                number = refl;
                origin = refl;
              },
              refl,
              sym (+ℤ-zero (flushed_time output x)),
            )
      | inr g ↦
          rw (pass_buckets, h, g)
            (
              record {
                started = refl;
                state_key = refl;
                size = refl;
                number = refl;
                origin = refl;
              },
              refl,
              sym (+ℤ-zero (flushed_time output x)),
            )
    ]
    | inr h ↦ rw (pass_buckets, h) (fill_buckets_lem (forward - 1) 1 full_end x t output)
  ]
