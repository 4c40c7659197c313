-- ===== src/Duration/Whole.antt =====
-- flushCurrentBucket as a whole: the time is kept.
use packages_modules_stats_d.Common.{
  ℕ, ◌-◌, ◌*◌, ◌/◌, ◌≡◌, refl, sym, ap, ◌∙◌, Option, none, Bool, true, false, ◌&&◌, ◌||◌, not, List,
  [], if◌then◌else◌, Eq, arith, if_both, Bool-cases, inl, inr,
}
use packages_modules_stats_d.Common.Int.{ℤ, pos, ◌+ℤ◌, ◌-ℤ◌, ◌≤ℤ◌, leb_ℤ, pos_part, +ℤ-zero}
use packages_modules_stats_d.Common.Dict.{Dict, get}
use packages_modules_stats_d.Duration.{OringDurationTracker, is_empty, values_or_zero, charge}
use packages_modules_stats_d.Duration.Flush.{
  DurationBucket, UploadThreshold, keys_of, flush_entries, pass_buckets, open_bucket,
  num_buckets_forward, flush_current_bucket, get_current_bucket_end_time_ns,
}
use packages_modules_stats_d.Duration.Accounting.{recorded, recorded-charge}
use packages_modules_stats_d.Duration.Conserved.{flushed_time, duration_of}
use packages_modules_stats_d.Duration.Kept.{
  IsSame, duration_of-keys_of, flush_entries-IsSame, duration_of-flush_entries,
  flushed_time-flush_entries, pass_buckets_lem,
}
use packages_modules_stats_d.Duration.Sums.{balance, begin_of, begin_lem, grown_not_negative}

module _ {K C SK : Type 0} ⦃s : Eq SK⦄ where
  -- The map that is charged up to the end of the bucket.
  abbrev pub charged_to : ℤ → OringDurationTracker K C SK → OringDurationTracker K C SK
  charged_to end_ns t = if is_empty t.started then t else charge end_ns t

  duration_of-charged_to :
      (t : OringDurationTracker K C SK) (end_ns : ℤ) (x : SK)
      → duration_of (charged_to end_ns t).state_key_duration_map x
        ≡ duration_of t.state_key_duration_map x
          +ℤ (if not (is_empty t.started) && s.beq t.state_values_key x
              then end_ns -ℤ t.last_start_time
              else pos 0)
  unfolding duration_of
  duration_of-charged_to t end_ns x = elim (Bool-cases (is_empty t.started)) [
    | inl h ↦ rw h (sym (+ℤ-zero (values_or_zero (get t.state_key_duration_map x)).duration))
    | inr h ↦ rw h (recorded-charge t end_ns x)
  ]

  -- The clock has not gone back: no duration is negative, and the last start is not after the end.
  pub record IsForward (end_ns : ℤ) (t : OringDurationTracker K C SK) : Type 0 where
    pub durations : (k : SK) → pos 0 ≤ℤ duration_of t.state_key_duration_map k
    pub last_start : is_empty t.started ≡ false → t.last_start_time ≤ℤ end_ns

module _ {K C SK : Type 0} ⦃s : Eq SK⦄ where
  charged_not_negative :
      (t : OringDurationTracker K C SK) (end_ns : ℤ) (x : SK)
      → IsForward end_ns t
      → pos 0 ≤ℤ duration_of (charged_to end_ns t).state_key_duration_map x
  charged_not_negative t end_ns x f =
      let d = duration_of t.state_key_duration_map x in
      rw (duration_of-charged_to t end_ns x) (
        grown_not_negative d t.last_start_time end_ns (is_empty t.started)
          (s.beq t.state_values_key x) (f.durations x) f.last_start)

  cleared_zero :
      (b : Bool) (t : OringDurationTracker K C SK) (x : SK)
      → duration_of t.state_key_duration_map x ≡ pos 0
      → duration_of
          (if b then record t { state_key_duration_map = [] } else t).state_key_duration_map
          x
        ≡ pos 0
  unfolding duration_of get
  cleared_zero true t x h = refl
  cleared_zero false t x h = h

  flushed_zero :
      (full : Bool) (end_ns : ℤ) (th : Option UploadThreshold) (ct : ℤ)
      (t : OringDurationTracker K C SK) (output : Dict SK (List DurationBucket)) (x : SK)
      → duration_of
          (flush_entries full end_ns th ct
            (keys_of t.state_key_duration_map)
            t
            output).0.state_key_duration_map
          x
        ≡ pos 0
  flushed_zero full end_ns th ct t output x = ground (
    arith,
    duration_of-flush_entries full end_ns th ct (keys_of t.state_key_duration_map) x t output,
    duration_of-keys_of t.state_key_duration_map x,
  )

  pub IsSame-trans : (t u v : OringDurationTracker K C SK) → IsSame t u → IsSame u v → IsSame t v
  IsSame-trans t u v a b = record {
    started = b.started ∙ a.started;
    state_key = b.state_key ∙ a.state_key;
    size = b.size ∙ a.size;
    number = b.number ∙ a.number;
    origin = b.origin ∙ a.origin;
  }

  pub charged_to-IsSame :
      (t : OringDurationTracker K C SK) (end_ns : ℤ) → IsSame t (charged_to end_ns t)
  unfolding charge
  charged_to-IsSame t end_ns =
      if_both (IsSame t) (is_empty t.started) _ _
        (λ h. record {
          started = refl;
          state_key = refl;
          size = refl;
          number = refl;
          origin = refl;
        })
        (λ h. record {
          started = refl;
          state_key = refl;
          size = refl;
          number = refl;
          origin = refl;
        })

  pub cleared-IsSame :
      (b : Bool) (t : OringDurationTracker K C SK)
      → IsSame t (if b then record t { state_key_duration_map = [] } else t)
  cleared-IsSame true t = record {
    started = refl;
    state_key = refl;
    size = refl;
    number = refl;
    origin = refl;
  }
  cleared-IsSame false t = record {
    started = refl;
    state_key = refl;
    size = refl;
    number = refl;
    origin = refl;
  }

  passed_time :
      (forward : ℕ) (full_end : ℤ) (key : SK) (t c : OringDurationTracker K C SK)
      (o : Dict SK (List DurationBucket))
      → IsSame t c
      → flushed_time (pass_buckets forward full_end c o).1 key
        ≡ flushed_time o key
          +ℤ (if not (is_empty t.started) && s.beq t.state_values_key key
              then pos ((forward - 1) * t.bucket_size_ns)
              else pos 0)
  passed_time forward full_end key t c o w =
      rw (sym w.started, sym w.state_key, sym w.size) (pass_buckets_lem forward full_end key c o).2

  recorded_lem :
      (t : OringDurationTracker K C SK) (now : ℤ) (key : SK)
      → recorded t now key
        ≡ duration_of t.state_key_duration_map key
          +ℤ (if not (is_empty t.started) && s.beq t.state_values_key key
              then now -ℤ t.last_start_time
              else pos 0)
  unfolding recorded duration_of
  recorded_lem t now key = refl

  recorded-open_bucket :
      (forward : ℕ) (full_end event_time_ns : ℤ) (key : SK) (t p : OringDurationTracker K C SK)
      → IsSame t p
      → recorded (open_bucket forward full_end event_time_ns p) event_time_ns key
        ≡ duration_of p.state_key_duration_map key
          +ℤ (if not (is_empty t.started) && s.beq t.state_values_key key
              then event_time_ns -ℤ begin_of forward full_end event_time_ns t.bucket_size_ns
              else pos 0)
  unfolding recorded open_bucket duration_of
  recorded-open_bucket forward full_end event_time_ns key t p w =
      rw (sym w.started, sym w.state_key, sym w.size) refl

  -- When no duration is negative and the last start is not after the end of the bucket, which the event
  -- cuts short if it comes first: a flush without a threshold keeps, for every state key, the sum
  -- of the durations in the output and the time recorded up to the event, over any number of buckets
  -- and for a full and a partial bucket.
  pub flushed_time-flush_current_bucket :
      (event_time_ns condition_true_ns : ℤ) (t : OringDurationTracker K C SK)
      (output : Dict SK (List DurationBucket)) (key : SK)
      → let full_end = get_current_bucket_end_time_ns t in
        IsForward (if leb_ℤ full_end event_time_ns then full_end else event_time_ns) t
        → let (u, o, safe) = flush_current_bucket event_time_ns none condition_true_ns t output in
          flushed_time o key +ℤ recorded u event_time_ns key
          ≡ flushed_time output key +ℤ recorded t event_time_ns key
  unfolding flush_current_bucket num_buckets_forward
  flushed_time-flush_current_bucket event_time_ns condition_true_ns t output key f =
      let full_end = get_current_bucket_end_time_ns t in
      let full = leb_ℤ full_end event_time_ns in
      let forward = num_buckets_forward event_time_ns t in
      let end_ns = if full then full_end else event_time_ns in
      let charged = charged_to end_ns t in
      let keys = keys_of charged.state_key_duration_map in
      let r = flush_entries full end_ns none condition_true_ns keys charged output in
      let clear = full || not t.has_anomaly_trackers in
      let cleared = if clear then record r.0 { state_key_duration_map = [] } else r.0 in
      let passed = pass_buckets forward full_end cleared r.1 in
      let (w, m, h) = pass_buckets_lem forward full_end key cleared r.1 in
      let same = IsSame-trans t charged cleared (charged_to-IsSame t end_ns) (
        IsSame-trans charged r.0 cleared
          (flush_entries-IsSame full end_ns none condition_true_ns keys charged output)
          (cleared-IsSame clear r.0)) in
      let zero_flushed = flushed_zero full end_ns none condition_true_ns charged output key in
      let zero_cleared = cleared_zero clear r.0 key zero_flushed in
      let entries =
        flushed_time-flush_entries full end_ns condition_true_ns keys key charged output
          (λ k. charged_not_negative t end_ns k f) in
      rw
        (
          recorded-open_bucket forward full_end event_time_ns key t passed.0
              (IsSame-trans t cleared passed.0 same w),
          recorded_lem t event_time_ns key,
        )
        (balance (flushed_time output key) (flushed_time r.1 key) (flushed_time passed.1 key)
          (duration_of t.state_key_duration_map key) (duration_of r.0.state_key_duration_map key)
          (duration_of passed.0.state_key_duration_map key) t.last_start_time end_ns
          (begin_of forward full_end event_time_ns t.bucket_size_ns) event_time_ns
          (pos ((forward - 1) * t.bucket_size_ns))
          (not (is_empty t.started) && s.beq t.state_values_key key)
          (entries ∙ ap (λ z. flushed_time output key +ℤ z) (duration_of-charged_to t end_ns key))
          zero_flushed (passed_time forward full_end key t cleared r.1 same)
          (ap (λ m. duration_of m key) m ∙ zero_cleared)
          (begin_lem full (pos_part (event_time_ns -ℤ full_end) / t.bucket_size_ns) t.bucket_size_ns
            full_end event_time_ns))
