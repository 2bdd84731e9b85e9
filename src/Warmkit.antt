-- ===== src/Warmkit.antt =====
-- warmkit/: the library that a warming instance embeds.
pub mod Types
pub mod Fsm
pub mod Metrics
pub mod Registry
pub mod Engine
pub mod ZkRegistry
