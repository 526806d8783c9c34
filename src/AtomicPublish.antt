-- ===== src/AtomicPublish.antt =====
-- resilient_updates/atomic_publish.py: promoting a new directory tree with a rollback.
pub mod Disk
pub mod Publish
pub mod Moves
pub mod Replacement
pub mod Rollback
