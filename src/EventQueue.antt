-- ===== src/EventQueue.antt =====
-- statsd/src/logd/LogEventQueue.h and .cpp: the bounded queue between the socket thread and the thread
-- that processes events. Each call holds the lock, so the calls are a sequence; a wait on the empty
-- queue does nothing. The calls of ATRACE and of the Perfetto trigger are reports.
pub mod Account
pub mod Calls
pub mod Tests
use packages_modules_stats_d.Common.{
  ℕ, suc, ◌/◌, Option, none, some, Bool, true, false, ◌&&◌, List, [], ◌∷◌, ◌++◌, ltb, length,
  if◌then◌else◌,
}
use packages_modules_stats_d.Common.Int.{ℤ, pos, negsuc, eqb_ℤ}

-- kQueueSizeBucketSize
abbrev pub queue_size_bucket_size : ℕ
queue_size_bucket_size = 5000

-- kTriggerPerfettoQueueSize
abbrev pub trigger_perfetto_queue_size : ℕ
trigger_perfetto_queue_size = 20000

pub record LogEventQueue (E : Type 0) : Type 0 where
  pub queue_limit : ℕ
  pub queue : List E
  pub is_overflowing : Bool
  pub overflow_lost_count : ℕ
  pub last_reported_bucket : ℤ

-- What a call shows: an event that was queued, lost or popped, and the traces.
pub data Report (E : Type 0) : Type 0 where
  queued lost popped : E → Report E
  overflow_began : Report E
  overflow_ended : ℕ → Report E
  size_bucket : ℕ → Report E
  perfetto_triggered : Report E

-- Result; the oldest timestamp is `none` where front() has no element to return.
pub record Result : Type 0 where
  pub success : Bool
  pub oldest_timestamp_ns : Option ℤ
  pub size : ℕ

abbrev pub init : {E : Type 0} → ℕ → LogEventQueue E
init max_size = record {
  queue_limit = max_size;
  queue = [];
  is_overflowing = false;
  overflow_lost_count = 0;
  last_reported_bucket = negsuc 0;
}

module _ {E : Type 0} where
  -- The trace of the size's bucket, if it is a new one.
  unfoldable pub report_bucket : LogEventQueue E → LogEventQueue E × List (Report E)
  report_bucket q =
      let bucket = length q.queue / queue_size_bucket_size in
      if eqb_ℤ (pos bucket) q.last_reported_bucket
      then (q, [])
      else (record q { last_reported_bucket = pos bucket }, size_bucket bucket ∷ [])

  -- waitPop
  unfoldable pub wait_pop : LogEventQueue E → LogEventQueue E × List (Report E)
  unfolding report_bucket
  wait_pop q = elim q.queue [
    | [] ↦ (q, [])
    | item ∷ rest ↦
        let (p, traces) = report_bucket (record q { queue = rest }) in (p, popped item ∷ traces)
  ]

  -- The branch of push for a queue with room, and the other.
  unfoldable pub push_queued : E → LogEventQueue E → LogEventQueue E × List (Report E)
  push_queued item q =
      let p = record q { queue = q.queue ++ (item ∷ []) } in
      if q.is_overflowing
      then (
        record p { is_overflowing = false; overflow_lost_count = 0 },
        queued item ∷ overflow_ended q.overflow_lost_count ∷ [],
      )
      else (p, queued item ∷ [])

  unfoldable pub push_lost : E → LogEventQueue E → LogEventQueue E × List (Report E)
  push_lost item q =
      if q.is_overflowing
      then (record q { overflow_lost_count = suc q.overflow_lost_count }, lost item ∷ [])
      else (
        record q { is_overflowing = true; overflow_lost_count = 1 },
        lost item ∷ overflow_began ∷ [],
      )

  abbrev pub front_timestamp : (E → ℤ) → List E → Option ℤ
  front_timestamp elapsed_timestamp_ns [] = none
  front_timestamp elapsed_timestamp_ns (item ∷ _) = some (elapsed_timestamp_ns item)

  -- flags::trigger_perfetto() is the first argument, GetElapsedTimestampNs the second.
  unfoldable pub push :
      Bool → (E → ℤ) → E → LogEventQueue E → LogEventQueue E × List (Report E) × Result
  unfolding report_bucket push_queued push_lost
  push trigger_perfetto elapsed_timestamp_ns item q =
      let room = ltb (length q.queue) q.queue_limit in
      let (p, first) = if room then push_queued item q else push_lost item q in
      let (r, traces) = report_bucket p in
      let size = length p.queue in
      let triggered =
        if trigger_perfetto && ltb trigger_perfetto_queue_size size
        then perfetto_triggered ∷ []
        else [] in
      (
        r,
        first ++ (traces ++ triggered),
        record {
          success = room;
          oldest_timestamp_ns =
              if room then some (pos 0) else front_timestamp elapsed_timestamp_ns q.queue;
          size = size;
        },
      )
