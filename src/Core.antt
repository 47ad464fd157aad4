-- ===== src/Core.antt =====
-- The crate `backend/telemetry_core`.
pub mod Counter
pub mod ChainStats
pub mod Node
pub mod Feed
pub mod Chain
pub mod State
pub mod InnerLoop
pub mod Locations
