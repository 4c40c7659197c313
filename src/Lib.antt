-- ===== src/Lib.antt =====
-- Verification of the core of StatsD, the Android statistics daemon, and of its client library
-- libstatssocket.
--
-- The program and the files. A client process builds an event and hands it to libstatssocket, which
-- writes it to the daemon's socket, directly or through a queue; the daemon queues what it reads, matches
-- each event, and passes it to condition trackers, state trackers and metric producers, which keep
-- buckets, and to anomaly trackers, which watch past buckets. The files, and the code that they model:
--   Common      tests on numbers, lists by index, integers and maps that the others share
--   Condition   statsd/src/condition: ConditionTimer.h (Condition/Timer), condition_util.cpp
--               (Condition/Util), SimpleConditionTracker.cpp (Condition/Simple) and
--               CombinationConditionTracker.cpp (Condition/Combination), over any children that keep
--               the contract of Condition/Combination/Evaluate, as simple trackers (Trackers) and
--               combinations (Nested) do
--   Anomaly     statsd/src/anomaly: AnomalyTracker.cpp (Anomaly/Tracker) and DurationAnomalyTracker.cpp
--               (Anomaly/Duration)
--   State       statsd/src/state/StateTracker.cpp (State/Tracker)
--   Alarm       statsd/src/anomaly: AlarmTracker.cpp, indexed_priority_queue.h (Alarm/Heap) and
--               AlarmMonitor.cpp (Alarm/Monitor), over any queue that keeps the contract of Alarm/Queue,
--               which the heap does
--   Duration    statsd/src/metrics/duration_helper/OringDurationTracker.cpp
--   Trigger     statsd/src/utils: MultiConditionTrigger.cpp and RateLimitedAsyncTrigger.cpp
--   Rate        statsd/src/guardrail/LoggingRate.cpp (Rate/Guardrail) and
--               lib/libstatssocket/logging_rate_limiter.h (Rate/Limiter)
--   Writer      lib/libstatssocket/stats_buffer_writer_queue.cpp
--   EventQueue  statsd/src/logd/LogEventQueue.cpp
--   Loss        lib/libstatssocket/stats_socket_loss_reporter.cpp
-- The file of a component holds its state as a record with the members of the class, without the leading
-- m, and one function per method under the method's name in snake case, which takes the state last and
-- returns the new one. What a method calls outside the class, such as listeners, traces and the socket,
-- is a list of reports or of changes that the function returns; the clock, the results of the socket and
-- of malloc, chance and flags are arguments. The child modules hold the proofs, and Tests runs the code on
-- concrete inputs.
--
-- Threads. Methods under one lock are taken as a sequence of calls. RateLimitedAsyncTrigger and
-- BufferWriterQueue work between locks or without one: their calls are split where other threads can come
-- in, and a list of moves gives the interleaving.
--
-- Numbers. Counts are natural numbers. Timestamps, bucket numbers and differences of times are integers;
-- the natural numbers that stand for the times of alarms and of refractory periods have no subtraction
-- that could fall below zero. The 32 bits of an alarm's time, of the sums of AlarmMonitor and of the end of a
-- refractory period are written out; int64 timestamps and int32 counters have no bound here. The values of
-- the buckets of an AnomalyTracker are doubles; they are of any type with the operations that the code
-- applies to them, and of natural numbers where a theorem is about their sums (Anomaly/Tracker/Sum and the
-- modules that use it): Count and Duration metrics have whole numbers, on which double is exact below
-- 2 ^ 53, and the fractional values of Gauge and NumericValue metrics are outside these theorems. The fuel of
-- Rate/Guardrail/Peak is the number of timestamps that are left, and each step uses one; that of
-- is_tracker_valid is one more than the trackers of the config, each of which is on the stack once at
-- most. The fuel of the two sifts of Alarm/Heap is the index or the length, that of popSoonerThan the size of
-- the queue; the theorems on their results hold for that fuel, so it is enough.
--
-- Maps. std::map and std::unordered_map are association lists; no order of iteration is relied on.
--
-- Not modelled: the initialisation of condition trackers, the tracker of maximal durations, the
-- combination of matchers, metric producers, libkll, and the encoding of events, which are planned; the
-- configuration, which is protobuf; reports, files, databases, Binder, sockets and processes, which are
-- input and output; and the Java code.
pub mod Common
pub mod Condition
pub mod Anomaly
pub mod State
pub mod Alarm
pub mod Trigger
pub mod Rate
pub mod Writer
pub mod EventQueue
pub mod Loss
pub mod Duration
