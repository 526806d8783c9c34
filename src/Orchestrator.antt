-- ===== src/Orchestrator.antt =====
-- resilient_updates/orchestrator.py: the state machine of a scan or update job.
pub mod Stage
pub mod Job
pub mod Pipeline
pub mod Streams
pub mod Failure
