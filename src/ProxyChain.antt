-- ===== src/ProxyChain.antt =====
-- resilient_updates/proxy_chain.py: proxy chains, their health, and the choice of a chain.
pub mod Chain
pub mod Config
pub mod Declared
pub mod Router
pub mod Health
pub mod Select
pub mod Report
