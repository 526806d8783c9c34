-- ===== src/PipelineState.antt =====
-- resilient_updates/pipeline_state.py: the checkpoint file of a pipeline run.
pub mod State
pub mod Stages
pub mod Order
pub mod Checkpoint
pub mod Resume
pub mod RunKey
pub mod Summary
