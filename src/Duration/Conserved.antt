-- ===== src/Duration/Conserved.antt =====
-- A flush moves the recorded time to the output and loses none of it.
use packages_modules_stats_d.Common.{
  ◌≡◌, sym, Option, none, some, Bool, List, [], ◌∷◌, ◌++◌, if◌then◌else◌, Eq, arith, Option-cases,
  Bool-cases, inl, inr,
}
use packages_modules_stats_d.Common.Int.{
  ℤ, pos, ◌+ℤ◌, ◌≤ℤ◌, leb_ℤ, int_laws, +ℤ-zero, zero-+ℤ, +ℤ_assoc, eq_of_parts,
}
use packages_modules_stats_d.Common.Dict.{Dict, get, put, get-put}
use packages_modules_stats_d.Duration.{OringDurationTracker, DurationValues, values_or_zero}
use packages_modules_stats_d.Duration.Flush.{
  DurationBucket, UploadThreshold, duration_passes_threshold, push_bucket, flush_entry,
}

unfoldable pub total_of : List DurationBucket → ℤ
total_of [] = pos 0
total_of (b ∷ l) = b.bucket_duration +ℤ total_of l

total_of-append :
    (l : List DurationBucket) (b : DurationBucket)
    → total_of (l ++ (b ∷ [])) ≡ total_of l +ℤ b.bucket_duration
unfolding total_of
total_of-append [] b = omega int_laws
total_of-append (a ∷ l) b =
    rw (total_of-append l b) (sym (+ℤ_assoc a.bucket_duration (total_of l) b.bucket_duration))

-- The total duration of the buckets of a key.
unfoldable pub total_or_zero : Option (List DurationBucket) → ℤ
total_or_zero none = pos 0
total_or_zero (some l) = total_of l

module _ {SK : Type 0} ⦃s : Eq SK⦄ where
  unfoldable pub flushed_time : Dict SK (List DurationBucket) → SK → ℤ
  flushed_time output key = total_or_zero (get output key)

  -- The duration that a map has for a key.
  unfoldable pub duration_of : Dict SK DurationValues → SK → ℤ
  duration_of m key = (values_or_zero (get m key)).duration

  pub flushed_time-push_bucket :
      (output : Dict SK (List DurationBucket)) (key other : SK) (b : DurationBucket)
      → flushed_time (push_bucket output key b) other
        ≡ flushed_time output other +ℤ (if s.beq key other then b.bucket_duration else pos 0)
  unfolding flushed_time push_bucket total_or_zero total_of
  flushed_time-push_bucket output key other b = elim (Bool-cases (s.beq key other)) [
    | inl t ↦ elim (Option-cases (get output key)) [
      | inl h ↦ ground (
        arith,
        get-put output key other (b ∷ []),
        s.beq_iff key other,
        +ℤ-zero b.bucket_duration,
        zero-+ℤ b.bucket_duration,
      )
      | inr (l, h) ↦ ground (
        arith,
        get-put output key other (l ++ (b ∷ [])),
        s.beq_iff key other,
        total_of-append l b,
      )
    ]
    | inr t ↦ elim (Option-cases (get output key)) [
      | inl h ↦
          ground
            (arith, get-put output key other (b ∷ []), +ℤ-zero (total_or_zero (get output other)))
      | inr (l, h) ↦ ground (
        arith,
        get-put output key other (l ++ (b ∷ [])),
        +ℤ-zero (total_or_zero (get output other)),
      )
    ]
  ]

module _ {K C SK : Type 0} ⦃s : Eq SK⦄ where
  -- One entry moves to the output, and has no duration then.
  pub duration_of-flush_entry :
      (full : Bool) (end_ns : ℤ) (th : Option UploadThreshold) (ct : ℤ) (key other : SK)
      (t : OringDurationTracker K C SK) (output : Dict SK (List DurationBucket))
      → duration_of (flush_entry full end_ns th ct key t output).0.state_key_duration_map other
        ≡ (if s.beq key other then pos 0 else duration_of t.state_key_duration_map other)
  unfolding flush_entry duration_of
  duration_of-flush_entry full end_ns th ct key other t output =
      let v = values_or_zero (get t.state_key_duration_map key) in
      let summed : DurationValues = record {
        duration = v.duration;
        duration_full_bucket = v.duration_full_bucket +ℤ v.duration;
      } in
      let m = put t.state_key_duration_map key summed in
      ground (
        arith,
        get-put m key other (record summed { duration = pos 0 }),
        get-put t.state_key_duration_map key other summed,
      )

  pub flushed_time-flush_entry :
      (full : Bool) (end_ns ct : ℤ) (key other : SK) (t : OringDurationTracker K C SK)
      (output : Dict SK (List DurationBucket))
      → pos 0 ≤ℤ duration_of t.state_key_duration_map key
      → flushed_time (flush_entry full end_ns none ct key t output).1 other
        ≡ flushed_time output other
          +ℤ (if s.beq key other then duration_of t.state_key_duration_map key else pos 0)
  unfolding flush_entry duration_of duration_passes_threshold
  flushed_time-flush_entry full end_ns ct key other t output h =
      let v = values_or_zero (get t.state_key_duration_map key) in
      let bucket : DurationBucket = record {
        bucket_start_ns = t.current_bucket_start_time_ns;
        bucket_end_ns = end_ns;
        bucket_duration = v.duration;
        condition_true_ns = ct;
      } in
      elim (Bool-cases (leb_ℤ v.duration (pos 0))) [
        | inl z ↦
            ground (arith, eq_of_parts v.duration (pos 0), +ℤ-zero (flushed_time output other))
        | inr z ↦ ground (arith, flushed_time-push_bucket output key other bucket)
      ]
