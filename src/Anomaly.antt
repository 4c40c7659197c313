-- ===== src/Anomaly.antt =====
-- statsd/src/anomaly: the trackers of alerts and alarms.
pub mod Tracker
pub mod Duration
