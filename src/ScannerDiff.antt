-- ===== src/ScannerDiff.antt =====
-- resilient_updates/scanner_diff.py: what changed between two scanner runs.
pub mod Rows
pub mod Diff
pub mod Counts
pub mod Members
