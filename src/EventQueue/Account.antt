-- ===== src/EventQueue/Account.antt =====
-- What becomes of every event, and what the traces say.
use packages_modules_stats_d.Common.{
  ℕ, ◌+◌, ◌/◌, ◌≤◌, ◌≡◌, refl, sym, ap, ◌∙◌, Bool, true, false, ◌&&◌, List, [], ◌∷◌, ◌++◌, ltb,
  length, if◌then◌else◌, if_both, arith, length-append,
}
use mathlib.Core.List.{append-nil, append_assoc}
use packages_modules_stats_d.Common.Int.{ℤ, pos, eqb_ℤ, eqb_ℤ_iff}
use packages_modules_stats_d.EventQueue.{
  LogEventQueue, Report, queued, lost, popped, overflow_ended, report_bucket, wait_pop, push_queued,
  push_lost, push, queue_size_bucket_size, trigger_perfetto_queue_size,
}

-- What the reports say, gathered in a list or added up.
abbrev pub gather : {E A : Type 0} → (Report E → List A) → List (Report E) → List A
gather f [] = []
gather f (r ∷ rs) = f r ++ gather f rs

abbrev pub total : {E : Type 0} → (Report E → ℕ) → List (Report E) → ℕ
total f [] = 0
total f (r ∷ rs) = f r + total f rs

gather-append :
    {E A : Type 0} (f : Report E → List A) (rs ss : List (Report E))
    → gather f (rs ++ ss) ≡ gather f rs ++ gather f ss
gather-append f [] ss = refl
gather-append f (r ∷ rs) ss =
    ap (λ l. f r ++ l) (gather-append f rs ss)
    ∙ sym (append_assoc (f r) (gather f rs) (gather f ss))

total-append :
    {E : Type 0} (f : Report E → ℕ) (rs ss : List (Report E))
    → total f (rs ++ ss) ≡ total f rs + total f ss
total-append f [] ss = omega arith
total-append f (r ∷ rs) ss = omega (arith, total-append f rs ss)

module _ {E : Type 0} where
  abbrev pub queued_in : Report E → List E
  queued_in (queued item) = item ∷ []
  queued_in _ = []

  abbrev pub popped_in : Report E → List E
  popped_in (popped item) = item ∷ []
  popped_in _ = []

  abbrev pub lost_in : Report E → ℕ
  lost_in (lost item) = 1
  lost_in _ = 0

  abbrev pub ended_in : Report E → ℕ
  ended_in (overflow_ended count) = count
  ended_in _ = 0

  -- The queue is within its limit, and counts losses only while it overflows.
  pub record IsValid (q : LogEventQueue E) : Type 0 where
    pub bounded : length q.queue ≤ q.queue_limit
    pub idle : q.is_overflowing ≡ false → q.overflow_lost_count ≡ 0

  -- The reports balance what changed from one queue to another.
  pub record Balances (q : LogEventQueue E) (p : LogEventQueue E) (rs : List (Report E))
      : Type 0 where
    pub limit : p.queue_limit ≡ q.queue_limit
    pub items : q.queue ++ gather queued_in rs ≡ gather popped_in rs ++ p.queue
    pub losses :
        total lost_in rs + q.overflow_lost_count ≡ total ended_in rs + p.overflow_lost_count

  pub Balances-nil : (q : LogEventQueue E) → Balances q q []
  Balances-nil q = record { limit = refl; items = append-nil q.queue; losses = refl }

  pub Balances-append :
      (q p r : LogEventQueue E) (rs ss : List (Report E))
      → Balances q p rs
      → Balances p r ss
      → Balances q r (rs ++ ss)
  Balances-append q p r rs ss b c = record {
    limit = c.limit ∙ b.limit;
    items =
        rw (gather-append queued_in rs ss, gather-append popped_in rs ss)
          (sym (append_assoc q.queue (gather queued_in rs) (gather queued_in ss))
            ∙ ap (λ l. l ++ gather queued_in ss) b.items
            ∙ append_assoc (gather popped_in rs) p.queue (gather queued_in ss)
            ∙ ap (λ l. gather popped_in rs ++ l) c.items
            ∙ sym (append_assoc (gather popped_in rs) (gather popped_in ss) r.queue));
    losses =
        omega (arith, total-append lost_in rs ss, total-append ended_in rs ss, b.losses, c.losses);
  }

  -- A report of the bucket changes nothing else, and leaves the trace at the size's bucket.
  pub record Quiet (q : LogEventQueue E) (r : LogEventQueue E × List (Report E)) : Type 0 where
    pub valid : IsValid r.0
    pub balances : Balances q r.0 r.1
    pub traced : r.0.last_reported_bucket ≡ pos (length r.0.queue / queue_size_bucket_size)

  report_bucket-Quiet : (q : LogEventQueue E) → IsValid q → Quiet q (report_bucket q)
  unfolding report_bucket
  report_bucket-Quiet q v =
      let bucket = length q.queue / queue_size_bucket_size in
      if_both (Quiet q) (eqb_ℤ (pos bucket) q.last_reported_bucket) _ _
        (λ same. record {
          valid = v;
          balances = Balances-nil q;
          traced = sym ((eqb_ℤ_iff (pos bucket) q.last_reported_bucket).0 same);
        })
        (λ _. record {
          valid = record { bounded = v.bounded; idle = v.idle };
          balances = record { limit = refl; items = append-nil q.queue; losses = refl };
          traced = refl;
        })

  abbrev pub Sound : LogEventQueue E → LogEventQueue E × List (Report E) → Type 0
  Sound q r = IsValid r.0 × Balances q r.0 r.1

  push_queued-Sound :
      (item : E) (q : LogEventQueue E)
      → IsValid q
      → ltb (length q.queue) q.queue_limit ≡ true
      → Sound q (push_queued item q)
  unfolding push_queued
  push_queued-Sound item q v room =
      if_both (Sound q) q.is_overflowing _ _
        (λ _. (
          record { bounded = ground (arith, length-append q.queue (item ∷ [])); idle = λ _. refl },
          record { limit = refl; items = refl; losses = ground arith },
        ))
        (λ _. (
          record { bounded = ground (arith, length-append q.queue (item ∷ [])); idle = v.idle },
          record { limit = refl; items = refl; losses = refl },
        ))

  push_lost-Sound : (item : E) (q : LogEventQueue E) → IsValid q → Sound q (push_lost item q)
  unfolding push_lost
  push_lost-Sound item q v =
      if_both (Sound q) q.is_overflowing _ _
        (λ over. (
          record { bounded = v.bounded; idle = λ f. cc (over, f) },
          record { limit = refl; items = append-nil q.queue; losses = omega arith },
        ))
        (λ quiet. (
          record { bounded = v.bounded; idle = λ f. cc f },
          record { limit = refl; items = append-nil q.queue; losses = omega (arith, v.idle quiet) },
        ))

  -- A call that shows more before or after a report of the bucket.
  after-Quiet :
      (q p : LogEventQueue E) (rs ss : List (Report E)) (r : LogEventQueue E × List (Report E))
      → Balances q p rs
      → Quiet p r
      → Balances r.0 r.0 ss
      → Quiet q (r.0, rs ++ (r.1 ++ ss))
  after-Quiet q p rs ss r b c d = record {
    valid = c.valid;
    balances =
        Balances-append q p r.0 rs (r.1 ++ ss) b (Balances-append p r.0 r.0 r.1 ss c.balances d);
    traced = c.traced;
  }

  pub push-Quiet :
      (flag : Bool) (timestamp : E → ℤ) (item : E) (q : LogEventQueue E)
      → IsValid q
      → Quiet q ((push flag timestamp item q).0, (push flag timestamp item q).1)
  unfolding push
  push-Quiet flag timestamp item q v =
      let tried =
        if ltb (length q.queue) q.queue_limit then push_queued item q else push_lost item q in
      let sound : Sound q tried =
        if_both (Sound q) (ltb (length q.queue) q.queue_limit) _ _ (push_queued-Sound item q v)
          (λ _. push_lost-Sound item q v) in
      after-Quiet q tried.0 tried.1 _ (report_bucket tried.0) sound.1
        (report_bucket-Quiet tried.0 sound.0)
        (if_both (Balances (report_bucket tried.0).0 (report_bucket tried.0).0)
          (flag && ltb trigger_perfetto_queue_size (length tried.0.queue)) _ _
          (λ _. record { limit = refl; items = append-nil _; losses = refl }) (λ _. Balances-nil _))

  abbrev fields : ℕ → List E → Bool → ℕ → ℤ → LogEventQueue E
  fields limit l over count bucket = record {
    queue_limit = limit;
    queue = l;
    is_overflowing = over;
    overflow_lost_count = count;
    last_reported_bucket = bucket;
  }

  pub pop_fields-Sound :
      (limit : ℕ) (l : List E) (over : Bool) (count : ℕ) (bucket : ℤ)
      → IsValid (fields limit l over count bucket)
      → Sound (fields limit l over count bucket) (wait_pop (fields limit l over count bucket))
  unfolding wait_pop
  pop_fields-Sound limit [] over count bucket v = (v, Balances-nil _)
  pop_fields-Sound limit (item ∷ rest) over count bucket v =
      let left =
        report_bucket-Quiet (fields limit rest over count bucket)
          (record { bounded = omega (arith, v.bounded); idle = v.idle }) in
      (
        left.valid,
        record {
          limit = left.balances.limit;
          items = ap (λ l. item ∷ l) left.balances.items;
          losses = omega (arith, left.balances.losses);
        },
      )
