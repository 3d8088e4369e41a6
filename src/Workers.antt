-- ===== src/Workers.antt =====
-- The worker loop of src/myloware/workers/worker.py.
pub mod JobTypes
pub mod Session
pub mod Handlers
pub mod Process
pub mod Laws
pub mod Loop
