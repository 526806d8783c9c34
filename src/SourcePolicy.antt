-- ===== src/SourcePolicy.antt =====
-- resilient_updates/source_policy.py: the candidates for one tool and layer, in priority order.
-- The configuration is the parsed feed_sources.yaml, after config.py has checked its required keys;
-- an optional key is an `Option`.
pub mod Order
pub mod Build
pub mod Offered
pub mod Complete
pub mod Priority
