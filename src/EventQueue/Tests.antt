-- ===== src/EventQueue/Tests.antt =====
-- A queue of two numbered events, whose numbers are their timestamps.
use packages_modules_stats_d.Common.{
  ℕ, ◌+◌, ◌/◌, ◌≤◌, ◌<◌, ◌≡◌, refl, some, false, List, [], ◌∷◌, ◌++◌, length, arith, if◌then◌else◌,
}
use packages_modules_stats_d.Common.Int.{pos}
use packages_modules_stats_d.EventQueue.{
  LogEventQueue, init, push, wait_pop, queue_size_bucket_size, queued, lost, popped, overflow_began,
  overflow_ended, size_bucket,
}
use packages_modules_stats_d.EventQueue.Account.{
  gather, total, queued_in, popped_in, lost_in, ended_in, IsValid,
}
use packages_modules_stats_d.EventQueue.Calls.{Call, pushes, pops, run, run-init, push-Result}

abbrev calls : List (Call ℕ)
calls =
    pushes false 3
    ∷ pushes false 4
    ∷ pushes false 5
    ∷ pushes false 6
    ∷ pops
    ∷ pushes false 7
    ∷ pushes false 8
    ∷ []

reports_of_run :
    (run pos calls (init 2)).1
    ≡ queued 3
      ∷ size_bucket 0
      ∷ queued 4
      ∷ lost 5
      ∷ overflow_began
      ∷ lost 6
      ∷ popped 3
      ∷ queued 7
      ∷ overflow_ended 2
      ∷ lost 8
      ∷ overflow_began
      ∷ []
unfolding run push wait_pop
reports_of_run = refl

run-init_example :
    (gather queued_in (run pos calls (init 2)).1
      ≡ gather popped_in (run pos calls (init 2)).1 ++ (run pos calls (init 2)).0.queue)
    × (length (run pos calls (init 2)).0.queue ≤ 2)
    × (total lost_in (run pos calls (init 2)).1
        ≡ total ended_in (run pos calls (init 2)).1
          + (run pos calls (init 2)).0.overflow_lost_count)
run-init_example = run-init pos 2 calls

abbrev full : LogEventQueue ℕ
full = record (init 1) { queue = 9 ∷ [] }

full-IsValid : IsValid full
full-IsValid = record { bounded = omega arith; idle = λ _. refl }

push-Result_example :
    (if (push false pos 4 full).2.success
      then (length full.queue < full.queue_limit)
        × ((push false pos 4 full).0.queue ≡ 9 ∷ 4 ∷ [])
        × ((push false pos 4 full).2.oldest_timestamp_ns ≡ some (pos 0))
      else (length full.queue ≡ full.queue_limit)
        × ((push false pos 4 full).0.queue ≡ 9 ∷ [])
        × ((oldest : ℕ) × (others : List ℕ) × (9 ∷ [] ≡ oldest ∷ others)
            × ((push false pos 4 full).2.oldest_timestamp_ns ≡ some (pos oldest))))
    × ((push false pos 4 full).2.size ≡ length (push false pos 4 full).0.queue)
    × ((push false pos 4 full).0.last_reported_bucket
        ≡ pos ((push false pos 4 full).2.size / queue_size_bucket_size))
push-Result_example = push-Result pos false 4 full full-IsValid (omega arith)
