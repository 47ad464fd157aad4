-- ===== src/Shard/JsonMessage.antt =====
-- backend/telemetry_shard/src/json_message/: the messages of nodes as they stand in JSON.
pub mod Hash
pub mod Version
pub mod NodeMessage
