-- ===== src/Common/InternalMessages.antt =====
-- backend/common/src/internal_messages.rs: the messages between a shard and the telemetry core.
use substrate_telemetry.Prelude.{ℕ, ap, ℕ_discrete, Key}
use substrate_telemetry.Common.NodeMessage.{Payload}
use substrate_telemetry.Common.NodeTypes.{BlockHash, NodeDetails}

abbrev pub ShardNodeId : Type 0
ShardNodeId = ℕ

-- `std::net::IpAddr`, an address as the number that it writes.
pub data IpAddr : Type 0 where
  v4 v6 : ℕ → IpAddr

pub data FromShardAggregator : Type 0 where
  add_node :
      (ip : IpAddr) (node : NodeDetails) (local_id : ShardNodeId) (genesis_hash : BlockHash)
      → FromShardAggregator
  update_node : (local_id : ShardNodeId) (payload : Payload) → FromShardAggregator
  remove_node : (local_id : ShardNodeId) → FromShardAggregator

pub data MuteReason : Type 0 where
  overquota chain_not_allowed : MuteReason

pub data FromTelemetryCore : Type 0 where
  mute : (local_id : ShardNodeId) (reason : MuteReason) → FromTelemetryCore

unfoldable IpAddr-discrete : Discrete IpAddr
IpAddr-discrete (v4 a) (v4 b) = elim (ℕ_discrete a b) [
  | yes e ↦ yes (ap v4 e)
  | no n ↦ no (λ e. n cc)
]
IpAddr-discrete (v4 a) (v6 b) = no (λ e. cc)
IpAddr-discrete (v6 a) (v4 b) = no (λ e. cc)
IpAddr-discrete (v6 a) (v6 b) = elim (ℕ_discrete a b) [
  | yes e ↦ yes (ap v6 e)
  | no n ↦ no (λ e. n cc)
]

instance unfoldable pub addr_key : Key IpAddr
unfolding IpAddr-discrete
addr_key = record { dec = IpAddr-discrete }
