-- ===== src/Workers/Handlers.antt =====
-- The job handlers of src/myloware/workers/handlers.py.
pub mod Services
pub mod SoraWebhook
pub mod SoraPoll
pub mod Remotion
pub mod Resume
pub mod Dispatch
pub mod Repeats
pub mod Clips
pub mod OneClip
pub mod OneClipPoll
pub mod Outcomes
