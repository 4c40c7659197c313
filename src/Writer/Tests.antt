-- ===== src/Writer/Tests.antt =====
-- A run of the queue.
use packages_modules_stats_d.Common.{◌≡◌, refl, some, true, false, List, [], ◌∷◌, ◌++◌, length}
use packages_modules_stats_d.Writer.{
  BufferWriterQueue, init, move, run, Move, writes, terminates, begins, ends, drain_queue,
  terminate, begin_command, end_command, stopped, should_write_via_queue,
}
use packages_modules_stats_d.Writer.Order.{run-accepted}
use packages_modules_stats_d.Writer.Reports.{accepted_of, finished_of}
use packages_modules_stats_d.Writer.Retry.{tries, past_tries, tries-run, terminate-stopped}

-- A first command fails once and is then written while another one comes in; a termination request
-- ends the worker after its next attempt.
abbrev moves : List Move
moves =
    writes true (1 ∷ 2 ∷ []) 7
    ∷ begins
    ∷ ends false
    ∷ begins
    ∷ writes true (3 ∷ []) 8
    ∷ ends true
    ∷ begins
    ∷ terminates
    ∷ ends false
    ∷ begins
    ∷ []

written : finished_of (run moves init).1 ≡ record { buffer = some (1 ∷ 2 ∷ []); atom_id = 7 } ∷ []
unfolding run move
written = refl

left_over : length (run moves init).0.cmd_queue ≡ 2
unfolding run move
left_over = refl

boot_time_event : should_write_via_queue 1000 1000 240 ≡ false
unfolding should_write_via_queue
boot_time_event = refl

run-accepted_example :
    accepted_of (run moves init).1
    ≡ finished_of (run moves init).1 ++ (drain_queue (run moves init).0).1
run-accepted_example = run-accepted moves

tries-run_example :
    tries 0 (run moves init).1
    ≡ some (past_tries (run moves init).0.phase (run moves init).0.retry_count)
tries-run_example = tries-run moves

abbrev one_write : BufferWriterQueue
one_write = (run (writes true (1 ∷ []) 7 ∷ []) init).0

terminate-stopped_example :
    (end_command false (begin_command (terminate one_write).0)).0.phase ≡ stopped
terminate-stopped_example = terminate-stopped false one_write (unfold run move in refl)
