-- ===== src/Safety.antt =====
-- src/myloware/safety/shields.py and src/myloware/workflows/langgraph/safety_cache.py. Texts are lists
-- of code points.
pub mod Shields
pub mod Cache
pub mod CacheLaws
pub mod Payloads
