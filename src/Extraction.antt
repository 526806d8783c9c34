-- ===== src/Extraction.antt =====
-- resilient_updates/extractor.py: the unpacking of nested archives into one output tree. A path is
-- the list of its components.
pub mod Limits
pub mod Names
pub mod Paths
pub mod Components
pub mod Confined
pub mod Members
pub mod Containment
pub mod Unbounded
pub mod Archive
pub mod Queue
pub mod Manifest
pub mod Termination
pub mod Target
pub mod Output
pub mod Verdict
pub mod Refused
