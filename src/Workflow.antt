-- ===== src/Workflow.antt =====
-- src/myloware/workflows: the graph of a video run, its gates, the replay of dead letters, and the cleanup of stuck runs.
pub mod Graph
pub mod Hitl
pub mod Replay
pub mod Cleanup
pub mod Clips
pub mod Resume
pub mod Validators
pub mod Overlays
