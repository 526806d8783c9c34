-- ===== src/Sbom.antt =====
-- resilient_updates/sbom_ingest.py: the SBOM documents that a delivery holds, merged with the one
-- that Syft wrote for the run.
pub mod Json
pub mod Walk
pub mod Nested
pub mod Traversal
pub mod Components
pub mod Merge
pub mod Keyed
pub mod Firsts
pub mod Base
pub mod Merged
pub mod Ending
pub mod Fuel
