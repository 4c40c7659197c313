-- ===== src/EventQueue/Calls.antt =====
-- Any sequence of calls, and the results of push.
use packages_modules_stats_d.Common.{
  ℕ, ◌+◌, ◌/◌, ◌≤◌, ◌<◌, ◌≡◌, refl, sym, ap, ◌∙◌, some, Bool, List, [], ◌∷◌, ◌++◌, ltb, length,
  if◌then◌else◌, arith, Bool-cases, inl, inr,
}
use packages_modules_stats_d.Common.Int.{ℤ, pos}
use packages_modules_stats_d.EventQueue.{
  LogEventQueue, Report, init, report_bucket, wait_pop, push_queued, push_lost, push,
  queue_size_bucket_size, front_timestamp,
}
use packages_modules_stats_d.EventQueue.Account.{
  gather, total, queued_in, popped_in, lost_in, ended_in, IsValid, Sound, Balances-nil,
  Balances-append, push-Quiet, pop_fields-Sound,
}

-- The calls of the two threads.
pub data Call (E : Type 0) : Type 0 where
  pushes : Bool → E → Call E
  pops : Call E

module _ {E : Type 0} (elapsed_timestamp_ns : E → ℤ) where
  abbrev pub step : Call E → LogEventQueue E → LogEventQueue E × List (Report E)
  step (pushes flag item) q =
      let (r, reports, result) = push flag elapsed_timestamp_ns item q in (r, reports)
  step pops q = wait_pop q

  unfoldable pub run : List (Call E) → LogEventQueue E → LogEventQueue E × List (Report E)
  run [] q = (q, [])
  run (c ∷ cs) q = let (p, first) = step c q in let (r, others) = run cs p in (r, first ++ others)

  step-Sound : (c : Call E) (q : LogEventQueue E) → IsValid q → Sound q (step c q)
  step-Sound (pushes flag item) q v =
      let c = push-Quiet flag elapsed_timestamp_ns item q v in (c.valid, c.balances)
  step-Sound pops q v =
      pop_fields-Sound q.queue_limit q.queue q.is_overflowing q.overflow_lost_count
        q.last_reported_bucket v

  run-Sound : (cs : List (Call E)) (q : LogEventQueue E) → IsValid q → Sound q (run cs q)
  unfolding run
  run-Sound [] q v = (v, Balances-nil q)
  run-Sound (c ∷ cs) q v =
      let s = step-Sound c q v in
      let others = run-Sound cs (step c q).0 s.0 in
      (others.0, Balances-append q (step c q).0 _ (step c q).1 _ s.1 others.1)

  -- For a new queue and any pushes and pops: the events that were queued are, in this order, those that
  -- were popped and those still in the queue, which holds at most its limit; and the numbers of lost
  -- events that were traced at the ends of overflows, with the count of the present overflow, add up to
  -- the events that were lost.
  pub run-init :
      (max_size : ℕ) (cs : List (Call E))
      → let (q, reports) = run cs (init max_size) in
        (gather queued_in reports ≡ gather popped_in reports ++ q.queue)
        × (length q.queue ≤ max_size)
        × (total lost_in reports ≡ total ended_in reports + q.overflow_lost_count)
  run-init max_size cs =
      let (v, b) =
        run-Sound cs (init max_size) (record { bounded = omega arith; idle = λ _. refl }) in
      (b.items, omega (arith, v.bounded, b.limit), omega (arith, b.losses))

  queue-report_bucket : (q : LogEventQueue E) → (report_bucket q).0.queue ≡ q.queue
  unfolding report_bucket
  queue-report_bucket q = ground arith

  queue-push_queued :
      (item : E) (q : LogEventQueue E) → (push_queued item q).0.queue ≡ q.queue ++ (item ∷ [])
  unfolding push_queued
  queue-push_queued item q = ground arith

  queue-push_lost : (item : E) (q : LogEventQueue E) → (push_lost item q).0.queue ≡ q.queue
  unfolding push_lost
  queue-push_lost item q = ground arith

  -- A queue that is not empty has an oldest event, whose timestamp is returned.
  front_timestamp_lem :
      (l : List E)
      → 0 < length l
      → (oldest : E) × (others : List E) × (l ≡ oldest ∷ others)
        × (front_timestamp elapsed_timestamp_ns l ≡ some (elapsed_timestamp_ns oldest))
  front_timestamp_lem [] h = absurd (omega arith)
  front_timestamp_lem (item ∷ others) h = (item, others, refl, refl)

  -- On a queue within a positive limit: push succeeds exactly if the queue is shorter than its limit,
  -- and then the event is the last one and the returned timestamp is 0; when it fails the queue is full
  -- and unchanged, and the returned timestamp is that of its first event, the oldest one. The size
  -- that it returns is that of the queue it leaves, and the traced bucket is that size's.
  pub push-Result :
      (flag : Bool) (item : E) (q : LogEventQueue E)
      → IsValid q
      → 0 < q.queue_limit
      → let (r, reports, result) = push flag elapsed_timestamp_ns item q in
        (if result.success
          then (length q.queue < q.queue_limit)
            × (r.queue ≡ q.queue ++ (item ∷ []))
            × (result.oldest_timestamp_ns ≡ some (pos 0))
          else (length q.queue ≡ q.queue_limit)
            × (r.queue ≡ q.queue)
            × ((oldest : E) × (others : List E) × (q.queue ≡ oldest ∷ others)
                × (result.oldest_timestamp_ns ≡ some (elapsed_timestamp_ns oldest))))
        × (result.size ≡ length r.queue)
        × (r.last_reported_bucket ≡ pos (result.size / queue_size_bucket_size))
  unfolding push
  push-Result flag item q v positive =
      let tried =
        if ltb (length q.queue) q.queue_limit then push_queued item q else push_lost item q in
      let traced = (push-Quiet flag elapsed_timestamp_ns item q v).traced in
      let same = queue-report_bucket tried.0 in
      (
        elim (Bool-cases (ltb (length q.queue) q.queue_limit)) [
          | inl room ↦ rw room (
            ground arith,
            queue-report_bucket (push_queued item q).0 ∙ queue-push_queued item q,
            refl,
          )
          | inr full ↦ rw full (
            ground (arith, v.bounded),
            queue-report_bucket (push_lost item q).0 ∙ queue-push_lost item q,
            front_timestamp_lem q.queue (ground arith),
          )
        ],
        ap length (sym same),
        traced ∙ ap (λ l. pos (length l / queue_size_bucket_size)) same,
      )
