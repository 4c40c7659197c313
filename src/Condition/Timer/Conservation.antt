-- ===== src/Condition/Timer/Conservation.antt =====
-- No time is lost or counted twice: what the buckets report adds up to the time that the condition
-- was true, whatever the order of condition changes and late bucket edges.
use packages_modules_stats_d.Common.{◌≡◌, ◌∙◌, ap, sym, Bool, List, [], ◌∷◌, arith, if◌then◌else◌}
use packages_modules_stats_d.Common.Int.{
  ℤ, pos, ◌+ℤ◌, ◌-ℤ◌, neg_ℤ, int_laws, neg_ℤ_parts, +ℤ_assoc, zero-+ℤ, +ℤ-zero,
}
use packages_modules_stats_d.Condition.Timer.{
  ConditionTimer, init, bucket_end_delay, cut_at_edge, open_next, new_bucket_start,
  on_condition_changed,
}

-- What the timer holds at time `now`: the recorded time, and the running stretch.
pub running : ℤ → ConditionTimer → ℤ
running now t =
    if t.condition then t.timer_ns +ℤ (now -ℤ t.last_condition_change_timestamp_ns) else t.timer_ns

carried :
    (timer last next now : ℤ)
    → pos 0 +ℤ (now -ℤ next) +ℤ (timer +ℤ (next -ℤ last)) ≡ timer +ℤ (now -ℤ last)
carried timer last next now = omega int_laws

restarted : (a b : ℤ) → pos 0 +ℤ a +ℤ b ≡ b +ℤ a
restarted a b = omega int_laws

given_back : (a b : ℤ) → a +ℤ (b -ℤ a) ≡ b
given_back a b = omega int_laws

self_sub : (a b : ℤ) → a +ℤ (b -ℤ b) ≡ a
self_sub a b = omega int_laws

cut_at_edge-running :
    (d next now : ℤ) (t : ConditionTimer)
    → running now (open_next next (cut_at_edge d next t).0) +ℤ (cut_at_edge d next t).0.timer_ns
      ≡ running now t
unfolding running cut_at_edge open_next
cut_at_edge-running d next now t = ground (
  arith,
  carried t.timer_ns t.last_condition_change_timestamp_ns next now,
  restarted (now -ℤ t.last_condition_change_timestamp_ns) t.timer_ns,
  given_back (t.last_condition_change_timestamp_ns -ℤ next) t.timer_ns,
  zero-+ℤ t.timer_ns,
)

-- One edge: what the bucket reports and what the timer still holds is what it held before.
new_bucket_start-running :
    (event next now : ℤ) (t : ConditionTimer)
    → running now (new_bucket_start event next t).0 +ℤ (new_bucket_start event next t).1.duration_ns
      ≡ running now t
unfolding new_bucket_start
new_bucket_start-running event next now t =
    cut_at_edge-running (bucket_end_delay event next) next now t

on_condition_changed-running :
    (b : Bool) (now : ℤ) (t : ConditionTimer)
    → running now (on_condition_changed b now t) ≡ running now t
unfolding running on_condition_changed
on_condition_changed-running b now t = ground (arith, self_sub t.timer_ns now)

-- What the owner of the stopwatch calls, in any order.
pub data Call : Type 0 where
  changes : Bool → ℤ → Call
  edges : ℤ → ℤ → Call

pub step : Call → ConditionTimer → ConditionTimer
step (changes b timestamp) t = on_condition_changed b timestamp t
step (edges event next) t = (new_bucket_start event next t).0

pub final : ConditionTimer → List Call → ConditionTimer
final t [] = t
final t (c ∷ cs) = final (step c t) cs

-- The sum of the durations that the buckets report.
pub reported : ConditionTimer → List Call → ℤ
reported t [] = pos 0
reported t (changes b timestamp ∷ cs) = reported (step (changes b timestamp) t) cs
reported t (edges event next ∷ cs) =
    (new_bucket_start event next t).1.duration_ns +ℤ reported (step (edges event next) t) cs

-- The sum of the corrections that the buckets report.
pub corrected : ConditionTimer → List Call → ℤ
corrected t [] = pos 0
corrected t (changes b timestamp ∷ cs) = corrected (step (changes b timestamp) t) cs
corrected t (edges event next ∷ cs) =
    (new_bucket_start event next t).1.correction_ns +ℤ corrected (step (edges event next) t) cs

-- How long the condition is true from `since` to `now`, read off the changes alone.
pub true_time : Bool → ℤ → List Call → ℤ → ℤ
true_time c since [] now = if c then now -ℤ since else pos 0
true_time c since (changes b timestamp ∷ cs) now =
    (if c then timestamp -ℤ since else pos 0) +ℤ true_time b timestamp cs now
true_time c since (edges event next ∷ cs) now = true_time c since cs now

later_lem :
    (timer last since now : ℤ) → timer +ℤ (now -ℤ last) ≡ timer +ℤ (since -ℤ last) +ℤ (now -ℤ since)
later_lem timer last since now = omega int_laws

running_later :
    (t : ConditionTimer) (since now : ℤ)
    → running now t ≡ running since t +ℤ (if t.condition then now -ℤ since else pos 0)
unfolding running
running_later t since now =
    ground (
      arith,
      later_lem t.timer_ns t.last_condition_change_timestamp_ns since now,
      +ℤ-zero t.timer_ns,
    )

condition-on_condition_changed :
    (b : Bool) (now : ℤ) (t : ConditionTimer) → (on_condition_changed b now t).condition ≡ b
unfolding on_condition_changed
condition-on_condition_changed b now t = ground arith

condition-new_bucket_start :
    (event next : ℤ) (t : ConditionTimer)
    → (new_bucket_start event next t).0.condition ≡ t.condition
unfolding new_bucket_start cut_at_edge open_next
condition-new_bucket_start event next t = ground arith

regroup : (d r f x v y : ℤ) → r +ℤ f ≡ x +ℤ v → x +ℤ d ≡ y → d +ℤ r +ℤ f ≡ y +ℤ v
regroup d r f x v y h k = rw (+ℤ_assoc d r f, h, ← k) (omega int_laws)

reported-true_time :
    (t : ConditionTimer) (since now : ℤ) (cs : List Call)
    → reported t cs +ℤ running now (final t cs)
      ≡ running since t +ℤ true_time t.condition since cs now
unfolding reported final true_time step
reported-true_time t since now [] = cc (zero-+ℤ (running now t), running_later t since now)
reported-true_time t since now (changes b ts ∷ cs) =
    reported-true_time (on_condition_changed b ts t) ts now cs
    ∙ rw (on_condition_changed-running b ts t, condition-on_condition_changed b ts t)
        (rw (running_later t since ts) (+ℤ_assoc (running since t) _ (true_time b ts cs now)))
reported-true_time t since now (edges event next ∷ cs) =
    regroup d _ _ _ _ _
      (reported-true_time t' since now cs ∙ rw (condition-new_bucket_start event next t))
      (new_bucket_start-running event next since t)
  where
    t' : ConditionTimer
    t' = (new_bucket_start event next t).0

    d : ℤ
    d = (new_bucket_start event next t).1.duration_ns

running-init : (c : Bool) (start : ℤ) → running start (init c start) ≡ pos 0
unfolding running init
running-init c start = ground (arith, self_sub (pos 0) start)

-- For a stopwatch that starts at `start`, after any calls and at any time `now`: the durations that
-- the buckets reported, and what the stopwatch still holds, add up to how long the condition was
-- true since `start`. No order of the timestamps is assumed.
pub reported-init :
    (c : Bool) (start now : ℤ) (cs : List Call)
    → reported (init c start) cs +ℤ running now (final (init c start) cs) ≡ true_time c start cs now
reported-init c start now cs =
    reported-true_time (init c start) start now cs
    ∙ rw (running-init c start) (unfold init in zero-+ℤ (true_time c start cs now))

negated_delay : (a : ℤ) → neg_ℤ a +ℤ a ≡ pos 0
negated_delay a = omega (int_laws, neg_ℤ_parts a)

shifted_delay : (a b : ℤ) → neg_ℤ a +ℤ b +ℤ a ≡ b
shifted_delay a b = omega (int_laws, neg_ℤ_parts a)

new_bucket_start-correction :
    (event next : ℤ) (t : ConditionTimer)
    → (new_bucket_start event next t).1.correction_ns +ℤ t.current_bucket_start_delay_ns
      ≡ (new_bucket_start event next t).0.current_bucket_start_delay_ns
unfolding new_bucket_start cut_at_edge open_next
new_bucket_start-correction event next t = ground (
  arith,
  negated_delay t.current_bucket_start_delay_ns,
  shifted_delay t.current_bucket_start_delay_ns (bucket_end_delay event next),
)

delay-on_condition_changed :
    (b : Bool) (now : ℤ) (t : ConditionTimer)
    → (on_condition_changed b now t).current_bucket_start_delay_ns ≡ t.current_bucket_start_delay_ns
unfolding on_condition_changed
delay-on_condition_changed b now t = ground arith

telescope : (c r d d' f : ℤ) → r +ℤ d' ≡ f → c +ℤ d ≡ d' → c +ℤ r +ℤ d ≡ f
telescope c r d d' f h k = rw (← h, ← k) (omega int_laws)

-- After any calls, the corrections that the buckets reported, with the delay that the first bucket
-- inherited, sum to the delay that is carried into the current bucket: what is added to one bucket
-- is taken off the next.
pub corrected_lem :
    (t : ConditionTimer) (cs : List Call)
    → corrected t cs +ℤ t.current_bucket_start_delay_ns ≡ (final t cs).current_bucket_start_delay_ns
unfolding corrected final step
corrected_lem t [] = zero-+ℤ t.current_bucket_start_delay_ns
corrected_lem t (changes b ts ∷ cs) =
    ap (λ d. corrected (on_condition_changed b ts t) cs +ℤ d)
      (sym (delay-on_condition_changed b ts t))
    ∙ corrected_lem (on_condition_changed b ts t) cs
corrected_lem t (edges event next ∷ cs) =
    telescope _ _ _ _ _ (corrected_lem (new_bucket_start event next t).0 cs)
      (new_bucket_start-correction event next t)
