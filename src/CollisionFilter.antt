-- ===== src/CollisionFilter.antt =====
-- resilient_updates/collision_filter.py: findings that the SBOM disproves.
pub mod Finding
pub mod Vendor
pub mod Collisions
pub mod Evidence
pub mod FanOut
pub mod Platforms
pub mod Disproof
pub mod Markers
pub mod Summary
