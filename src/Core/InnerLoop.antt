-- ===== src/Core/InnerLoop.antt =====
-- backend/telemetry_core/src/aggregator/inner_loop.rs: the messages of the feeds, and what is sent to
-- feeds. `Feeds` has the fields of `InnerLoop` that these read or change. A channel is a number, a
-- send to it is not taken to fail, and the bytes of a message are the feed messages in it.
pub mod Subscriptions
pub mod Validity
pub mod Broadcast
pub mod Commands
pub mod Shards
mod Queue
mod Examples
use substrate_telemetry.Prelude.{
  ℕ, zero, suc, Bool, Option, none, some, List, [], ◌∷◌, ◌++◌, nat_key, and_then, unwrap_or, Text,
  if◌then◌else◌,
}
use substrate_telemetry.Prelude.HashMap
use substrate_telemetry.Prelude.HashMap.{HashMap}
use substrate_telemetry.Common.DenseMap
use substrate_telemetry.Common.MultiMapUnique
use substrate_telemetry.Common.MultiMapUnique.{MultiMapUnique}
use substrate_telemetry.Common.NodeTypes.{BlockHash}
use substrate_telemetry.Core.Chain.{Chain, label, node_count}
use substrate_telemetry.Core.Feed
use substrate_telemetry.Core.Feed.{Feed}
use substrate_telemetry.Core.Node.{Node}
use substrate_telemetry.Core.State.{State, get_chain_by_genesis_hash}

abbrev pub ConnId : Type 0
ConnId = ℕ

pub data FromFeedWebsocket : Type 0 where
  initialize : (channel : ℕ) → FromFeedWebsocket
  subscribe : (chain : BlockHash) → FromFeedWebsocket
  ping : (value : Text) → FromFeedWebsocket
  disconnected : FromFeedWebsocket

pub record Feeds : Type 0 where
  pub node_state : State
  pub feed_channels : HashMap ConnId ℕ
  pub chain_to_feed_conn_ids : MultiMapUnique BlockHash ConnId
  pub expose_node_details : Bool

-- The channel that something is sent to, and the messages.
abbrev pub Sent : Type 0
Sent = ℕ × Feed

-- Nothing is sent of an empty serializer.
pub send : ℕ → Feed → List Sent
send channel [] = []
send channel (message ∷ feed) = (channel, message ∷ feed) ∷ []

pub send_all : ℕ → List Feed → List Sent
unfolding send
send_all channel [] = []
send_all channel (feed ∷ feeds) = send channel feed ++ send_all channel feeds

pub added_chains : List (ℕ × Chain) → Feed
added_chains [] = []
added_chains ((id, chain) ∷ chains) =
    Feed.added_chain (label chain) chain.genesis_hash (node_count chain) ∷ added_chains chains

-- What a new subscriber is told of one slot of a chain.
slot_feed : Bool → ℕ → Option Node → Feed
slot_feed expose id none = []
slot_feed expose id (some node) =
    Feed.added_node id node expose
    ∷ Feed.finalized_block id node.finalized.height node.finalized.hash
    ∷ (if node.stale then Feed.stale_node id ∷ [] else [])

-- The slots from `id` on in chunks of 64, with what is in the current chunk, and how many slots
-- it still takes.
node_chunks : Bool → (id left : ℕ) → Feed → List (Option Node) → List Feed
unfolding slot_feed
node_chunks expose id left feed [] = feed ∷ []
node_chunks expose id zero feed (slot ∷ slots) =
    feed ∷ node_chunks expose (suc id) 63 (slot_feed expose id slot) slots
node_chunks expose id (suc left) feed (slot ∷ slots) =
    node_chunks expose (suc id) left (feed ++ slot_feed expose id slot) slots

-- `if let Some(old_chain) = old_chain`
unsubscribed : Option Chain → Feed
unsubscribed none = []
unsubscribed (some chain) = Feed.unsubscribed_from chain.genesis_hash ∷ []

-- What a new subscriber is told of the chain.
subscription_feed : (now : ℕ) → Option Chain → Chain → Feed
unfolding unsubscribed
subscription_feed now old chain =
    unsubscribed old
    ++ Feed.subscribed_to chain.genesis_hash
      ∷ Feed.time_sync now
      ∷ Feed.best_block chain.best.height (unwrap_or chain.timestamp 0) chain.average_block_time
      ∷ Feed.best_finalized chain.finalized.height chain.finalized.hash
      ∷ Feed.chain_stats_update chain.stats
      ∷ []

-- `Ping`, with the channel of the feed.
pong : Option ℕ → Text → List Sent
unfolding send
pong none value = []
pong (some channel) value = send channel (Feed.pong value ∷ [])

-- The end of `Subscribe`, with the new chain if it exists.
pub subscribe_new : Option Chain → (channel now conn : ℕ) → Option Chain → Feeds → Feeds × List Sent
unfolding send send_all subscription_feed node_chunks
subscribe_new none channel now conn old s = (s, [])
subscribe_new (some chain) channel now conn old s = (
  record s {
    chain_to_feed_conn_ids =
        (MultiMapUnique.insert chain.genesis_hash conn s.chain_to_feed_conn_ids).0;
  },
  send channel (subscription_feed now old chain)
      ++ send_all channel (node_chunks s.expose_node_details 0 64 [] chain.nodes.items),
)

-- `Subscribe`, with the channel of the feed.
pub on_subscribe : Option ℕ → (now conn : ℕ) → BlockHash → Feeds → Feeds × List Sent
unfolding subscribe_new
on_subscribe none now conn chain s = (s, [])
on_subscribe (some channel) now conn chain s =
    let (removed, old_genesis_hash) = MultiMapUnique.remove_value conn s.chain_to_feed_conn_ids in
    subscribe_new (get_chain_by_genesis_hash s.node_state chain) channel now conn
      (and_then old_genesis_hash (get_chain_by_genesis_hash s.node_state))
      (record s { chain_to_feed_conn_ids = removed })

pub handle_from_feed : (now : ℕ) → ConnId → FromFeedWebsocket → Feeds → Feeds × List Sent
unfolding send added_chains pong on_subscribe
handle_from_feed now conn (initialize channel) s = (
  record s { feed_channels = HashMap.insert conn channel s.feed_channels },
  send channel (Feed.version 32 ∷ added_chains (DenseMap.iter s.node_state.chains)),
)
handle_from_feed now conn (ping value) s = (s, pong (HashMap.get conn s.feed_channels) value)
handle_from_feed now conn (subscribe chain) s =
    on_subscribe (HashMap.get conn s.feed_channels) now conn chain s
handle_from_feed now conn disconnected s = (
  record s {
    feed_channels = HashMap.remove conn s.feed_channels;
    chain_to_feed_conn_ids = (MultiMapUnique.remove_value conn s.chain_to_feed_conn_ids).0;
  },
  [],
)

-- `if let Some(chan) = self.feed_channels.get_mut(&feed_id)`
send_if_open : Option ℕ → Feed → List Sent
unfolding send
send_if_open none feed = []
send_if_open (some channel) feed = send channel feed

-- A message for some feeds.
pub send_to : HashMap ConnId Unit → Feed → HashMap ConnId ℕ → List Sent
unfolding send_if_open
send_to [] feed channels = []
send_to (e ∷ es) feed channels =
    send_if_open (HashMap.get e.0 channels) feed ++ send_to es feed channels

pub send_to_values : Option (HashMap ConnId Unit) → Feed → HashMap ConnId ℕ → List Sent
unfolding send_to
send_to_values none feed channels = []
send_to_values (some feeds) feed channels = send_to feeds feed channels

pub finalize_and_broadcast_to_chain_feeds : BlockHash → Feed → Feeds → List Sent
unfolding send_to_values
finalize_and_broadcast_to_chain_feeds genesis_hash feed s =
    send_to_values (MultiMapUnique.get_values genesis_hash s.chain_to_feed_conn_ids) feed
      s.feed_channels

pub finalize_and_broadcast_to_all_feeds : Feed → HashMap ConnId ℕ → List Sent
unfolding send
finalize_and_broadcast_to_all_feeds feed [] = []
finalize_and_broadcast_to_all_feeds feed (e ∷ es) =
    send e.1 feed ++ finalize_and_broadcast_to_all_feeds feed es
