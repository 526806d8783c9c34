-- ===== src/Fallback.antt =====
-- resilient_updates/fallback.py and _retry.py: download from the first source that answers.
pub mod Reason
pub mod Retry
pub mod Attempt
pub mod Trace
pub mod Outcome
