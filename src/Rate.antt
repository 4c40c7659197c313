-- ===== src/Rate.antt =====
-- Fixed-window counters: statsd/src/guardrail/LoggingRate.h and .cpp, and
-- lib/libstatssocket/logging_rate_limiter.h. Counts are int32_t in the source and natural numbers here;
-- timestamps are integers.
pub mod Guardrail
pub mod Limiter
pub mod Tests
