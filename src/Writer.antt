-- ===== src/Writer.antt =====
-- lib/libstatssocket/stats_buffer_writer_queue_impl.h and stats_buffer_writer_queue.cpp: the queue of
-- events that a worker thread writes to the socket. The threads interleave: a move is a write, a
-- termination request, the worker's look at the front, or the end of its attempt to write that
-- command, with what write_buffer_to_statsd_impl returned. Sleeps and the wake-up are left out: a
-- worker that waits on an empty queue does nothing.
pub mod Reports
pub mod Order
pub mod Retry
pub mod Tests
use packages_modules_stats_d.Common.{
  ℕ, suc, ◌==◌, Option, none, some, Bool, true, false, ◌||◌, List, [], ◌∷◌, ◌++◌, leb, length,
  if◌then◌else◌,
}

-- kQueueMaxSizeLimit
abbrev pub queue_max_size_limit : ℕ
queue_max_size_limit = 4800

-- kQueueRetryCount
abbrev pub queue_retry_count : ℕ
queue_retry_count = 10

-- A null buffer is `none`; a buffer is its bytes, so its size is their number.
pub record Cmd : Type 0 where
  pub buffer : Option (List ℕ)
  pub atom_id : ℕ

-- Where the worker is: before its look at the front, writing a copy of the front (true for the final
-- retry), or returned.
pub data Phase : Type 0 where
  waiting : Phase
  handling : Cmd → Bool → Phase
  stopped : Phase

pub record BufferWriterQueue : Type 0 where
  pub cmd_queue : List Cmd
  pub do_terminate : Bool
  pub worker_thread_started : Bool
  pub retry_count : ℕ
  pub phase : Phase

abbrev pub init : BufferWriterQueue
init = record {
  cmd_queue = [];
  do_terminate = false;
  worker_thread_started = false;
  retry_count = 0;
  phase = waiting;
}

-- What a move shows: a command that was put in the queue or turned away, or an attempt to write one
-- that succeeded, failed and will be repeated, or failed for the last time.
pub data Report : Type 0 where
  accepted refused sent failed dropped : Cmd → Report

unfoldable pub push_to_queue : Cmd → BufferWriterQueue → BufferWriterQueue × Bool
push_to_queue cmd q =
    let started = record q { worker_thread_started = true } in
    if leb queue_max_size_limit (length q.cmd_queue)
    then (started, false)
    else (record started { cmd_queue = q.cmd_queue ++ (cmd ∷ []) }, true)

abbrev pub reported : Cmd → BufferWriterQueue × Bool → BufferWriterQueue × List Report
reported cmd (q, ok) = (q, if ok then accepted cmd ∷ [] else refused cmd ∷ [])

-- malloc may fail.
abbrev pub create_write_buffer_cmd : Bool → List ℕ → ℕ → Cmd
create_write_buffer_cmd allocated bytes atom_id = record {
  buffer = if allocated then some bytes else none;
  atom_id = atom_id;
}

unfoldable pub write : Bool → List ℕ → ℕ → BufferWriterQueue → BufferWriterQueue × List Report
unfolding push_to_queue
write allocated bytes atom_id q =
    let cmd = create_write_buffer_cmd allocated bytes atom_id in
    elim cmd.buffer [ none ↦ (q, refused cmd ∷ []) | some _ ↦ reported cmd (push_to_queue cmd q) ]

abbrev pub terminate_cmd : Cmd
terminate_cmd = record { buffer = none; atom_id = 0 }

-- terminate, up to the join. The thread is joinable once it was started.
unfoldable pub terminate : BufferWriterQueue → BufferWriterQueue × List Report
unfolding push_to_queue
terminate q =
    if q.worker_thread_started
    then reported terminate_cmd (push_to_queue terminate_cmd (record q { do_terminate = true }))
    else (q, [])

-- processCommands from its look at the front to the call of handleCommand.
unfoldable pub take_front : List Cmd → BufferWriterQueue → BufferWriterQueue
take_front [] q = q
take_front (cmd ∷ _) q = elim cmd.buffer [
  | none ↦ record q { phase = stopped }
  | some _ ↦ record q {
    retry_count = suc q.retry_count;
    phase = handling cmd (leb queue_retry_count (suc q.retry_count));
  }
]

unfoldable pub begin_command : BufferWriterQueue → BufferWriterQueue
unfolding take_front
begin_command q = elim q.phase [
  | waiting ↦ if q.worker_thread_started then take_front q.cmd_queue q else q
  | handling _ _ ↦ q
  | stopped ↦ q
]

abbrev pub pop : List Cmd → List Cmd
pop [] = []
pop (_ ∷ rest) = rest

abbrev pub outcome : Bool → Bool → Cmd → Report
outcome true is_final_retry cmd = sent cmd
outcome false true cmd = dropped cmd
outcome false false cmd = failed cmd

-- processCommands after handleCommand returned.
unfoldable pub end_command : Bool → BufferWriterQueue → BufferWriterQueue × List Report
end_command write_success q = elim q.phase [
  | waiting ↦ (q, [])
  | stopped ↦ (q, [])
  | handling cmd is_final_retry ↦
      let popped =
        if write_success || is_final_retry
        then record q { retry_count = 0; cmd_queue = pop q.cmd_queue }
        else q in
      (
        record popped { phase = if q.do_terminate then stopped else waiting },
        outcome write_success is_final_retry cmd ∷ [],
      )
]

-- drainQueue: the commands whose buffers it frees.
unfoldable pub drain_queue : BufferWriterQueue → BufferWriterQueue × List Cmd
drain_queue q = (record q { cmd_queue = [] }, q.cmd_queue)

pub data Move : Type 0 where
  writes : Bool → List ℕ → ℕ → Move
  terminates begins : Move
  ends : Bool → Move

unfoldable pub move : Move → BufferWriterQueue → BufferWriterQueue × List Report
unfolding write terminate begin_command end_command
move (writes allocated bytes atom_id) q = write allocated bytes atom_id q
move terminates q = terminate q
move begins q = (begin_command q, [])
move (ends write_success) q = end_command write_success q

unfoldable pub run : List Move → BufferWriterQueue → BufferWriterQueue × List Report
run [] q = (q, [])
run (m ∷ ms) q = let (p, first) = move m q in let (r, others) = run ms p in (r, first ++ others)

-- kBootTimeEventElapsedTimeAtomId
abbrev pub boot_time_event_elapsed_time_atom_id : ℕ
boot_time_event_elapsed_time_atom_id = 240

-- should_write_via_queue, without benchmark support. AID_SYSTEM is the platform's.
unfoldable pub should_write_via_queue : ℕ → ℕ → ℕ → Bool
should_write_via_queue aid_system app_uid atom_id =
    if atom_id == boot_time_event_elapsed_time_atom_id
    then false
    else if app_uid == aid_system
    then true
    else false
