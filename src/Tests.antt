-- ===== src/Tests.antt =====
-- Concrete inputs of the parts of src/myloware, and the theorems at them.
pub mod JobTable
pub mod RunTable
pub mod VideoCache
pub mod CircuitBreaker
pub mod Retries
pub mod JobWorker
pub mod JobServices
pub mod JobHandlers
pub mod Resumes
pub mod Checks
pub mod Gates
pub mod Letters
pub mod StuckRuns
pub mod ChatSessions
pub mod Validators
pub mod Overlays
