-- ===== src/State.antt =====
-- statsd/src/state
pub mod Tracker
