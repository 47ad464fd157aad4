-- ===== src/Core/InnerLoop/Shards.antt =====
-- backend/telemetry_core/src/aggregator/inner_loop.rs: the messages of shards. `InnerLoop` has the
-- fields of `Feeds` in one field. What is sent to feeds, to shards and to the locator of nodes is the
-- list of effects.
pub mod Handling
pub mod Removal
pub mod Consistency
pub mod Disconnection
mod Examples
use substrate_telemetry.Prelude.{
  ℕ, Bool, true, false, ◌||◌, Option, none, some, List, [], ◌∷◌, ◌++◌, map, nat_key, text_key,
  bucket_key, bool_key, ℕ_discrete, ite, Text, ◌==◌, if◌then◌else◌, Run, ok, ◌>>=◌,
}
use substrate_telemetry.Prelude.HashMap
use substrate_telemetry.Prelude.HashMap.{HashMap}
use substrate_telemetry.Common.BiMap.{BiMap}
use substrate_telemetry.Common.InternalMessages.{
  IpAddr, ShardNodeId, MuteReason, overquota, chain_not_allowed,
}
use substrate_telemetry.Common.NodeMessage.{Payload}
use substrate_telemetry.Common.NodeTypes.{BlockHash, NodeDetails, Location}
use substrate_telemetry.Core.Chain.{Chain, Readings}
use substrate_telemetry.Core.ChainStats.{F64}
use substrate_telemetry.Core.Feed
use substrate_telemetry.Core.Feed.{Feed}
use substrate_telemetry.Core.InnerLoop.{
  ConnId, Feeds, Sent, finalize_and_broadcast_to_chain_feeds, finalize_and_broadcast_to_all_feeds,
}
use substrate_telemetry.Core.Node.{Floats}
use substrate_telemetry.Core.State
use substrate_telemetry.Core.State.{
  State, NodeId, NodeAddedToChain, AddNodeResult, RemovedNode, chain_on_deny_list, chain_over_quota,
  node_added_to_chain, get_chain_by_node_id,
}

-- A shard and its id of a node.
abbrev pub Source : Type 0
Source = ConnId × ShardNodeId

pub data FromShardWebsocket : Type 0 where
  initialize : (channel : ℕ) → FromShardWebsocket
  add :
      (local_id : ShardNodeId) (ip : IpAddr) (node : NodeDetails) (genesis_hash : BlockHash)
      → FromShardWebsocket
  update : (local_id : ShardNodeId) (payload : Payload) → FromShardWebsocket
  remove : (local_id : ShardNodeId) → FromShardWebsocket
  disconnected : FromShardWebsocket

pub data Effect : Type 0 where
  to_feed : Sent → Effect
  mute : (channel : ℕ) (local_id : ShardNodeId) (reason : MuteReason) → Effect
  locate : NodeId → IpAddr → Effect

pub record InnerLoop (bimap : BiMap NodeId Source) : Type 0 where
  pub feeds : Feeds
  pub node_ids : bimap.Map
  pub shard_channels : HashMap ConnId ℕ

-- What the handlers read of the outside: the clocks, and an address as text.
pub record Outside : Type 0 where
  pub readings : Readings
  pub show : IpAddr → Text

-- `if let Some(shard_conn) = self.shard_channels.get_mut(&shard_conn_id)`
mute_if_open : Option ℕ → ShardNodeId → MuteReason → List Effect
mute_if_open none local_id reason = []
mute_if_open (some channel) local_id reason = mute channel local_id reason ∷ []

-- `self.expose_node_details.then_some(…)`
pub then_some : Bool → Text → Option Text
then_some true t = some t
then_some false t = none

-- What a broadcast to the feeds of a chain sends, if the chain is there.
broadcast_to_chain : Option Chain → Feed → Feeds → List Sent
broadcast_to_chain none feed s = []
broadcast_to_chain (some chain) feed s =
    finalize_and_broadcast_to_chain_feeds chain.genesis_hash feed s

-- What all feeds are told of a chain that a node has joined.
joined_feed : BlockHash → NodeAddedToChain → Feed
joined_feed genesis_hash added =
    (if added.has_chain_label_changed then Feed.removed_chain genesis_hash ∷ [] else [])
    ++ Feed.added_chain added.new_chain_label genesis_hash added.chain_node_count ∷ []

-- What all feeds, and the feeds of the chain, are told of a node that has left.
left_for_all : RemovedNode → Feed
left_for_all r =
    (if (r.chain_node_count == 0) || r.has_chain_label_changed
      then Feed.removed_chain r.chain_genesis_hash ∷ []
      else [])
    ++ (if r.chain_node_count == 0
        then []
        else Feed.added_chain r.new_chain_label r.chain_genesis_hash r.chain_node_count ∷ [])

left_for_chain : NodeId → RemovedNode → Feed
left_for_chain id r =
    if r.chain_node_count == 0 then [] else Feed.removed_node id.chain_node_id ∷ []

-- The two feeds of `remove_node`.
removed_feeds : NodeId → Option RemovedNode → Feed × Feed
unfolding left_for_all left_for_chain
removed_feeds id none = ([], [])
removed_feeds id (some r) = (left_for_chain id r, left_for_all r)

-- `node_ids_per_chain.entry(…).or_default().push(node_id)`, if the node has a chain.
push_id : NodeId → Option (List NodeId) → List NodeId
push_id id none = id ∷ []
push_id id (some ids) = ids ++ id ∷ []

add_to_group :
    NodeId → Option Chain → HashMap BlockHash (List NodeId) → HashMap BlockHash (List NodeId)
unfolding push_id
add_to_group id none groups = groups
add_to_group id (some chain) groups =
    HashMap.insert chain.genesis_hash (push_id id (HashMap.get chain.genesis_hash groups)) groups

-- The nodes by the genesis hash of their chain; a node with no chain is in no group.
pub group : List NodeId → State → HashMap BlockHash (List NodeId) → HashMap BlockHash (List NodeId)
unfolding add_to_group
group [] state groups = groups
group (id ∷ ids) state groups =
    group ids state (add_to_group id (get_chain_by_node_id state id) groups)

-- The nodes of a shard, in the order of the iterator.
pub ids_of : ConnId → List (NodeId × Source) → List NodeId
ids_of conn [] = []
ids_of conn (e ∷ es) = let rest = ids_of conn es in ite (ℕ_discrete conn e.1.0) (e.0 ∷ rest) rest

-- `if let Some(loc) = location`, with the chain of the node.
located : NodeId → Location → Option Chain → Feeds → List Sent
unfolding broadcast_to_chain
located id none chain s = []
located id (some loc) chain s =
    broadcast_to_chain chain
      (Feed.located_node id.chain_node_id loc.latitude loc.longitude loc.city ∷ []) s

module _ {bimap : BiMap NodeId Source} where
  -- `Add`, with what the state made of the node.
  pub on_added :
      AddNodeResult
      → State
      → ConnId
      → ShardNodeId
      → IpAddr
      → BlockHash
      → InnerLoop bimap
      → InnerLoop bimap × List Effect
  unfolding mute_if_open joined_feed
  on_added chain_on_deny_list state conn local_id ip genesis_hash l = (
    record l { feeds = record l.feeds { node_state = state } },
    mute_if_open (HashMap.get conn l.shard_channels) local_id chain_not_allowed,
  )
  on_added chain_over_quota state conn local_id ip genesis_hash l = (
    record l { feeds = record l.feeds { node_state = state } },
    mute_if_open (HashMap.get conn l.shard_channels) local_id overquota,
  )
  on_added (node_added_to_chain added) state conn local_id ip genesis_hash l =
      let feeds = record l.feeds { node_state = state } in
      (
        record l { feeds = feeds; node_ids = bimap.insert added.id (conn, local_id) l.node_ids },
        map to_feed (
              finalize_and_broadcast_to_chain_feeds genesis_hash
                (Feed.added_node added.id.chain_node_id added.node feeds.expose_node_details ∷ [])
                feeds)
            ++ map to_feed (
                finalize_and_broadcast_to_all_feeds (joined_feed genesis_hash added)
                  feeds.feed_channels)
            ++ locate added.id ip ∷ [],
      )

module _ (f64 : F64) {bimap : BiMap NodeId Source} where
  -- `remove_node`, with what it pushes for the chain and for all.
  pub remove_node : NodeId → InnerLoop bimap → Run (InnerLoop bimap × (Feed × Feed))
  unfolding removed_feeds
  remove_node id l = do
    (state, removed) ← State.remove_node f64 id l.feeds.node_state
    ok (
      record l {
        node_ids = bimap.remove_by_left id l.node_ids;
        feeds = record l.feeds { node_state = state };
      },
      removed_feeds id removed,
    )

  -- The nodes of one chain, with what is pushed for the chain and for all.
  pub remove_group : List NodeId → InnerLoop bimap → Run (InnerLoop bimap × (Feed × Feed))
  unfolding remove_node
  remove_group [] l = ok (l, ([], []))
  remove_group (id ∷ ids) l = do
    (removed, one) ← remove_node id l
    (rest, others) ← remove_group ids removed
    ok (rest, (one.0 ++ others.0, one.1 ++ others.1))

  -- The loop over the chains, with what it sends, and what it pushes for all.
  pub remove_groups :
      HashMap BlockHash (List NodeId) → InnerLoop bimap → Run (InnerLoop bimap × (List Sent × Feed))
  unfolding remove_group
  remove_groups [] l = ok (l, ([], []))
  remove_groups (e ∷ es) l = do
    (removed, pushed) ← remove_group e.1 l
    (rest, others) ← remove_groups es removed
    ok (
      rest,
      (
        finalize_and_broadcast_to_chain_feeds e.0 pushed.0 removed.feeds ++ others.0,
        pushed.1 ++ others.1,
      ),
    )

  pub remove_nodes_and_broadcast_result :
      List NodeId → InnerLoop bimap → Run (InnerLoop bimap × List Effect)
  unfolding remove_groups group
  remove_nodes_and_broadcast_result ids l = do
    (removed, result) ← remove_groups (group ids l.feeds.node_state []) l
    ok (
      removed,
      map to_feed
          (result.0 ++ finalize_and_broadcast_to_all_feeds result.1 removed.feeds.feed_channels),
    )

  -- `Remove`, with the node that the id stands for.
  pub on_remove :
      Option NodeId → ConnId → ShardNodeId → InnerLoop bimap → Run (InnerLoop bimap × List Effect)
  unfolding remove_nodes_and_broadcast_result
  on_remove none conn local_id l = ok (l, [])
  on_remove (some id) conn local_id l =
      remove_nodes_and_broadcast_result (id ∷ [])
        (record l { node_ids = bimap.remove_by_right (conn, local_id) l.node_ids })

  module _ (floats : Floats) where
    -- `Update`, with the node that the id stands for.
    pub on_update :
        Option NodeId → Readings → Payload → InnerLoop bimap → Run (InnerLoop bimap × List Effect)
    unfolding broadcast_to_chain
    on_update none readings payload l = ok (l, [])
    on_update (some id) readings payload l = do
      (state, feed) ←
          State.update_node floats f64 readings id payload l.feeds.expose_node_details
            l.feeds.node_state
      let feeds = record l.feeds { node_state = state }
      ok (
        record l { feeds = feeds },
        map to_feed (broadcast_to_chain (get_chain_by_node_id state id) feed feeds),
      )

    pub handle_from_shard :
        Outside
        → ConnId
        → FromShardWebsocket
        → InnerLoop bimap
        → Run (InnerLoop bimap × List Effect)
    unfolding on_added on_remove on_update then_some remove_nodes_and_broadcast_result ids_of
    handle_from_shard outside conn (initialize channel) l =
        ok (record l { shard_channels = HashMap.insert conn channel l.shard_channels }, [])
    handle_from_shard outside conn (add local_id ip node genesis_hash) l = do
      (state, result) ←
          State.add_node floats f64 outside.readings.now outside.readings.instant genesis_hash
            (record node { ip = then_some l.feeds.expose_node_details (outside.show ip) })
            l.feeds.node_state
      ok (on_added result state conn local_id ip genesis_hash l)
    handle_from_shard outside conn (remove local_id) l =
        on_remove (bimap.get_by_right (conn, local_id) l.node_ids) conn local_id l
    handle_from_shard outside conn (update local_id payload) l =
        on_update (bimap.get_by_right (conn, local_id) l.node_ids) outside.readings payload l
    handle_from_shard outside conn disconnected l =
        remove_nodes_and_broadcast_result (ids_of conn (bimap.iter l.node_ids))
          (record l { shard_channels = HashMap.remove conn l.shard_channels })

  -- `handle_from_find_location`
  pub handle_from_find_location :
      NodeId → Location → InnerLoop bimap → InnerLoop bimap × List Effect
  unfolding located
  handle_from_find_location id location l =
      let state = (State.update_node_location id location l.feeds.node_state).0 in
      let feeds = record l.feeds { node_state = state } in
      (
        record l { feeds = feeds },
        map to_feed (located id location (get_chain_by_node_id state id) feeds),
      )
