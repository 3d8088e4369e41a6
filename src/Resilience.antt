-- ===== src/Resilience.antt =====
-- src/myloware/resilience and the retry helpers of src/myloware/workflows.
pub mod Breaker
pub mod Retry
