-- ===== src/Condition.antt =====
-- statsd/src/condition: the states of a condition, the stopwatch and the trackers.
pub mod Timer
pub mod Util
pub mod Simple
pub mod Combination
