-- ===== src/Shard.antt =====
-- The crate `backend/telemetry_shard`, which nodes connect to.
pub mod Aggregator
pub mod BlockedAddrs
pub mod Connection
pub mod JsonMessage
pub mod RealIp
pub mod CoreConnection
