-- ===== src/Duration/Aligned.antt =====
-- The bucket that is current after a flush.
use packages_modules_stats_d.Common.{
  ℕ, ◌+◌, ◌-◌, ◌*◌, ◌/◌, ◌<◌, ◌≤◌, ◌≡◌, refl, ap, Option, true, false, ◌||◌, not, List, [], ltb,
  if◌then◌else◌, Eq, arith, Bool-cases, inl, inr,
}
use packages_modules_stats_d.Common.Int.{
  ℤ, pos, ◌+ℤ◌, ◌-ℤ◌, ◌≤ℤ◌, leb_ℤ, ltb_ℤ, pos_part, neg_part, int_laws,
}
use packages_modules_stats_d.Common.Dict.{Dict}
use packages_modules_stats_d.Duration.{OringDurationTracker}
use packages_modules_stats_d.Duration.Flush.{
  DurationBucket, UploadThreshold, keys_of, flush_entries, pass_buckets, open_bucket,
  num_buckets_forward, flush_current_bucket, get_current_bucket_end_time_ns,
}
use native.Mathlib.Nat.{div-mul-le_self, lt-div-mul-add}
use packages_modules_stats_d.Duration.Kept.{IsSame, flush_entries-IsSame, pass_buckets_lem}
use packages_modules_stats_d.Duration.Whole.{
  charged_to, IsSame-trans, charged_to-IsSame, cleared-IsSame,
}

multiples :
    (num q size : ℕ)
    → ((num + 1) * size ≡ num * size + size)
      × ((1 + q - 1) * size ≡ q * size)
      × ((num + (1 + q) + 1) * size ≡ num * size + q * size + size + size)
      × ((num + (1 + q)) * size ≡ num * size + q * size + size)
multiples num q size =
    let less : 1 + q - 1 ≡ q = omega arith in
    (omega arith, ap (λ k. k * size) less, omega arith, omega arith)

not_negative : (a b : ℤ) → b ≤ℤ a → neg_part (a -ℤ b) ≡ 0
unfolding ◌-ℤ◌
not_negative a b h = ground arith

full_bucket :
    (o fe event : ℤ) (num q size : ℕ)
    → fe ≡ o +ℤ pos ((num + 1) * size)
    → fe ≤ℤ event
    → q * size ≤ pos_part (event -ℤ fe)
    → pos_part (event -ℤ fe) < q * size + size
    → (fe +ℤ pos ((1 + q - 1) * size) ≤ℤ event)
      × (pos_part event + neg_part (o +ℤ pos ((num + (1 + q) + 1) * size))
          < pos_part (o +ℤ pos ((num + (1 + q) + 1) * size)) + neg_part event)
full_bucket o fe event num q size e le below above =
    let (a, b, c, d) = multiples num q size in
    let (ep, en) : (pos_part fe ≡ pos_part (o +ℤ pos ((num + 1) * size)))
        × (neg_part fe ≡ neg_part (o +ℤ pos ((num + 1) * size))) =
      (ap pos_part e, ap neg_part e) in
    (
      omega (int_laws, below, above, le, b, not_negative event fe le),
      omega (int_laws, below, above, le, not_negative event fe le, ep, en, a, c),
    )

on_grid :
    (o : ℤ) (num q size : ℕ)
    → o +ℤ pos ((num + 1) * size) +ℤ pos ((1 + q - 1) * size) ≡ o +ℤ pos ((num + (1 + q)) * size)
on_grid o num q size = let (a, b, c, d) = multiples num q size in omega (int_laws, a, b, d)

module _ {K C SK : Type 0} ⦃s : Eq SK⦄ where
  passed_tracker :
      (event_time_ns condition_true_ns : ℤ) (threshold : Option UploadThreshold)
      (t : OringDurationTracker K C SK) (output : Dict SK (List DurationBucket))
      → (p : OringDurationTracker K C SK) × IsSame t p
        × ((flush_current_bucket event_time_ns threshold condition_true_ns t output).0
            ≡ open_bucket
                (num_buckets_forward event_time_ns t)
                (get_current_bucket_end_time_ns t)
                event_time_ns
                p)
  unfolding flush_current_bucket
  passed_tracker event_time_ns ct th t output =
      let full_end = get_current_bucket_end_time_ns t in
      let full = leb_ℤ full_end event_time_ns in
      let end_ns = if full then full_end else event_time_ns in
      let charged = charged_to end_ns t in
      let keys = keys_of charged.state_key_duration_map in
      let r = flush_entries full end_ns th ct keys charged output in
      let clear = full || not t.has_anomaly_trackers in
      let cleared = if clear then record r.0 { state_key_duration_map = [] } else r.0 in
      let forward = num_buckets_forward event_time_ns t in
      let w = (pass_buckets_lem forward full_end t.state_values_key cleared r.1).0 in
      let same = IsSame-trans t charged cleared (charged_to-IsSame t end_ns) (
        IsSame-trans charged r.0 cleared
          (flush_entries-IsSame full end_ns th ct keys charged output)
          (cleared-IsSame clear r.0)) in
      ((pass_buckets forward full_end cleared r.1).0, IsSame-trans t cleared _ same w, refl)

  same_bucket :
      (event_time_ns : ℤ) (t : OringDurationTracker K C SK)
      → leb_ℤ (get_current_bucket_end_time_ns t) event_time_ns ≡ false
      → ltb_ℤ event_time_ns
          (t.start_time_ns +ℤ pos ((t.current_bucket_num + 0 + 1) * t.bucket_size_ns))
        ≡ true
  same_bucket event_time_ns t h = ground arith

  opened :
      (event_time_ns : ℤ) (t p : OringDurationTracker K C SK)
      → IsSame t p
      → 0 < t.bucket_size_ns
      → let full_end = get_current_bucket_end_time_ns t in
        let forward = num_buckets_forward event_time_ns t in
        let u = open_bucket forward full_end event_time_ns p in
        (u.current_bucket_start_time_ns ≤ℤ event_time_ns)
        × (ltb_ℤ event_time_ns (get_current_bucket_end_time_ns u) ≡ true)
        × (u.current_bucket_start_time_ns ≡ (
            if leb_ℤ full_end event_time_ns
            then t.start_time_ns +ℤ pos (u.current_bucket_num * t.bucket_size_ns)
            else event_time_ns))
        × (u.last_start_time ≡ u.current_bucket_start_time_ns)
  unfolding open_bucket num_buckets_forward
  opened event_time_ns t p w h =
      let full_end = get_current_bucket_end_time_ns t in
      let d = pos_part (event_time_ns -ℤ full_end) in
      let below = div-mul-le_self d t.bucket_size_ns in
      let above = lt-div-mul-add {a = d} {b = t.bucket_size_ns} h in
      rw (w.size, w.number, w.origin)
        (elim (Bool-cases (leb_ℤ full_end event_time_ns)) [
          | inl full ↦
              let late : full_end ≤ℤ event_time_ns = ground arith in
              let q = d / t.bucket_size_ns in
              let (x, y) =
                full_bucket t.start_time_ns full_end event_time_ns t.current_bucket_num q
                  t.bucket_size_ns refl late below above in
              let positive : ltb 0 (1 + q) ≡ true = ground arith in
              rw (num_buckets_forward, full, positive)
                (
                  x,
                  ground arith,
                  on_grid t.start_time_ns t.current_bucket_num q t.bucket_size_ns,
                  refl,
                )
          | inr partial ↦
              rw (num_buckets_forward, partial)
                (omega arith, same_bucket event_time_ns t partial, refl, refl)
        ])

  -- With a positive bucket size, after a flush at any time and with any threshold: the current bucket
  -- starts at or before the event and ends after it; its start is the event itself if the old bucket
  -- had not ended, and otherwise lies at its number of buckets after the start of the metric; the clock
  -- of the duration starts there.
  pub flush_current_bucket-Contains :
      (event_time_ns condition_true_ns : ℤ) (threshold : Option UploadThreshold)
      (t : OringDurationTracker K C SK) (output : Dict SK (List DurationBucket))
      → 0 < t.bucket_size_ns
      → let (u, o, safe) =
          flush_current_bucket event_time_ns threshold condition_true_ns t output in
        let full_end = get_current_bucket_end_time_ns t in
        (u.current_bucket_start_time_ns ≤ℤ event_time_ns)
        × (ltb_ℤ event_time_ns (get_current_bucket_end_time_ns u) ≡ true)
        × (u.current_bucket_start_time_ns ≡ (
            if leb_ℤ full_end event_time_ns
            then t.start_time_ns +ℤ pos (u.current_bucket_num * t.bucket_size_ns)
            else event_time_ns))
        × (u.last_start_time ≡ u.current_bucket_start_time_ns)
  flush_current_bucket-Contains event_time_ns ct th t output h =
      let (p, w, e) = passed_tracker event_time_ns ct th t output in
      rw e (opened event_time_ns t p w h)
