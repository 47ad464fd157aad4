-- ===== src/Common/NodeMessage.antt =====
-- backend/common/src/node_message.rs: the messages that a node sends.
use substrate_telemetry.Prelude.{ℕ, Option, none, some, Text}
use substrate_telemetry.Common.NodeTypes.{Block, BlockHash, BlockNumber, NodeDetails}
use substrate_telemetry.Common.Parse.{parse_u64}

pub record SystemConnected : Type 0 where
  pub genesis_hash : BlockHash
  pub node : NodeDetails

pub record SystemInterval : Type 0 where
  pub peers : Option ℕ
  pub txcount : Option ℕ
  pub bandwidth_upload : Option ℕ
  pub bandwidth_download : Option ℕ
  pub finalized_height : Option BlockNumber
  pub finalized_hash : Option BlockHash
  pub block : Option Block
  pub used_state_cache_size : Option ℕ

pub record Finalized : Type 0 where
  pub hash : BlockHash
  pub height : Text

pub record AfgAuthoritySet : Type 0 where
  pub authority_id : Text

pub record NodeHwBench : Type 0 where
  pub cpu_hashrate_score : ℕ
  pub memory_memcpy_score : ℕ
  pub disk_sequential_write_score : Option ℕ
  pub disk_random_write_score : Option ℕ

pub data Payload : Type 0 where
  system_connected : SystemConnected → Payload
  system_interval : SystemInterval → Payload
  block_import : Block → Payload
  notify_finalized : Finalized → Payload
  afg_authority_set : AfgAuthoritySet → Payload
  hw_bench : NodeHwBench → Payload

pub data NodeMessage : Type 0 where
  v1 : Payload → NodeMessage
  v2 : ℕ → Payload → NodeMessage

-- `NodeMessage::id`
unfoldable pub message_id : NodeMessage → ℕ
message_id (v1 payload) = 0
message_id (v2 id payload) = id

unfoldable pub into_payload : NodeMessage → Payload
into_payload (v1 payload) = payload
into_payload (v2 id payload) = payload

unfoldable pub best_block : Payload → Option Block
best_block (block_import block) = some block
best_block (system_interval interval) = interval.block
best_block _ = none

-- A block from its two optional parts.
abbrev pub block_of : Option BlockHash → Option BlockNumber → Option Block
block_of (some hash) (some height) = some (record { hash = hash; height = height })
block_of _ _ = none

unfoldable pub finalized_block : Payload → Option Block
finalized_block (system_interval interval) =
    block_of interval.finalized_hash interval.finalized_height
finalized_block (notify_finalized finalized) =
    block_of (some finalized.hash) (parse_u64 finalized.height)
finalized_block _ = none
