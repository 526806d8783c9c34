-- ===== src/Tests.antt =====
-- Runs of the theorems on concrete inputs.
mod Publishing
mod Pipelines
mod Plans
mod Downloads
mod Routing
mod Jobs
mod Collisions
mod Diffs
mod Egress
mod Environments
mod Documents
mod Extractions
