-- ===== src/Trigger.antt =====
-- statsd/src/utils/MultiConditionTrigger.h and .cpp, and statsd/src/utils/RateLimitedAsyncTrigger.h and
-- .cpp.
pub mod MultiCondition
pub mod RateLimited
pub mod Tests
