-- ===== src/Storage.antt =====
-- src/myloware/storage: the tables and the repositories over them.
pub mod Jobs
pub mod Runs
pub mod Artifacts
pub mod DeadLetters
pub mod Chats
pub mod Feedback
pub mod AuditLogs
