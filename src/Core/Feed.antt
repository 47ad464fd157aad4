-- ===== src/Core/Feed.antt =====
-- backend/telemetry_core/src/feed_message.rs: the messages that feeds receive. What a call pushes onto
-- a `FeedMessageSerializer` is the list of its messages, in order.
pub mod Serializer
use substrate_telemetry.Prelude.{ℕ, Bool, Option, Text, List}
use substrate_telemetry.Common.NodeTypes.{
  BlockDetails, BlockHash, BlockNumber, NodeHardware, NodeIo, NodeStats, Timestamp,
}
use substrate_telemetry.Core.ChainStats.{ChainStats}
use substrate_telemetry.Core.Node.{Node}

-- The constructors, with the fields of the source's structs. A message that borrows a node or its
-- parts is serialised when it is pushed, so it holds their values at that time.
pub data FeedMessage : Type 0 where
  version : ℕ → FeedMessage
  best_block : BlockNumber → Timestamp → Option ℕ → FeedMessage
  best_finalized : BlockNumber → BlockHash → FeedMessage
  added_node : ℕ → Node → Bool → FeedMessage
  removed_node : ℕ → FeedMessage
  located_node : ℕ → ℕ → ℕ → Text → FeedMessage
  imported_block : ℕ → BlockDetails → FeedMessage
  finalized_block : ℕ → BlockNumber → BlockHash → FeedMessage
  node_stats_update : ℕ → NodeStats → FeedMessage
  hardware : ℕ → NodeHardware → FeedMessage
  time_sync : ℕ → FeedMessage
  added_chain : Text → BlockHash → ℕ → FeedMessage
  removed_chain : BlockHash → FeedMessage
  subscribed_to : BlockHash → FeedMessage
  unsubscribed_from : BlockHash → FeedMessage
  pong : Text → FeedMessage
  stale_node : ℕ → FeedMessage
  node_io_update : ℕ → NodeIo → FeedMessage
  chain_stats_update : ChainStats → FeedMessage

-- The messages pushed so far.
abbrev pub Feed : Type 0
Feed = List FeedMessage
