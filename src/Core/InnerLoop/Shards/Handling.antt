-- ===== src/Core/InnerLoop/Shards/Handling.antt =====
-- backend/telemetry_core/src/aggregator/inner_loop.rs: the messages of shards do not panic the core,
-- and keep its state valid.
use substrate_telemetry.Prelude.{
  ℕ, Option, none, some, List, [], ◌∷◌, nat_key, Returns, Returns-bind,
}
use substrate_telemetry.Prelude.HashMap.{HashMap}
use substrate_telemetry.Common.BiMap.{BiMap}
use substrate_telemetry.Common.InternalMessages.{IpAddr, ShardNodeId}
use substrate_telemetry.Common.NodeMessage.{Payload}
use substrate_telemetry.Common.NodeTypes.{BlockHash, NodeDetails}
use substrate_telemetry.Core.Chain.{Readings}
use substrate_telemetry.Core.ChainStats.{F64}
use substrate_telemetry.Core.InnerLoop.{ConnId, Feeds}
use substrate_telemetry.Core.InnerLoop.Shards.{
  InnerLoop, Source, FromShardWebsocket, initialize, add, update, remove, disconnected, Outside,
  on_added, group, remove_node, remove_group, remove_groups, remove_nodes_and_broadcast_result,
  on_remove, on_update, handle_from_shard, ids_of, then_some,
}
use substrate_telemetry.Core.InnerLoop.Subscriptions as Subscriptions
use substrate_telemetry.Core.InnerLoop.Shards.{handle_from_find_location}
use substrate_telemetry.Common.NodeTypes.{Location}
use substrate_telemetry.Core.State.Nodes.{update_node_location-IsValid}
use substrate_telemetry.Core.Node.{Floats}
use substrate_telemetry.Core.State
use substrate_telemetry.Core.State.{
  State, NodeId, AddNodeResult, chain_on_deny_list, chain_over_quota, node_added_to_chain,
}
use substrate_telemetry.Core.State.Index as Index
use substrate_telemetry.Core.State.Presence.{Alike, Without}
use substrate_telemetry.Core.State.Nodes as StateNodes
use substrate_telemetry.Core.State.Nodes.{
  Told, denied, full, entered, add_node-Told, update_node-IsValid,
}

-- A valid state may take the place of another.
pub with_state :
    (s : State) (f : Feeds)
    → Subscriptions.IsValid f
    → Subscriptions.IsValid (record f { node_state = s })
with_state s f h = record { subscriptions = h.subscriptions; reachable = h.reachable }

pub Told-IsValid :
    (f64 : F64) (floats : Floats) (now : ℕ) (genesis_hash : BlockHash) (details : NodeDetails)
    (s : State) (r : State × AddNodeResult)
    → Index.IsValid f64 s
    → Told f64 floats now genesis_hash details s r
    → Index.IsValid f64 r.0
Told-IsValid f64 floats now genesis_hash details s r v (denied e) = v
Told-IsValid f64 floats now genesis_hash details s r v (full s' chain n i q w alike) = w
Told-IsValid f64 floats now genesis_hash details s r v
      (entered s' report chain n i q w a b c d fresh others) =
    w

module _ (f64 : F64) {bimap : BiMap NodeId Source} where
  -- The state of the chains is valid, and so are the subscriptions of the feeds.
  pub record IsValid (l : InnerLoop bimap) : Type 0 where
    pub state : Index.IsValid f64 l.feeds.node_state
    pub feeds : Subscriptions.IsValid l.feeds

  pub remove_node-IsValid :
      (id : NodeId) (l : InnerLoop bimap)
      → IsValid l
      → Returns (remove_node f64 id l) (λ r. IsValid r.0)
  unfolding remove_node
  remove_node-IsValid id l h =
      Returns-bind (State.remove_node f64 id l.feeds.node_state) _
        (λ r. Index.IsValid f64 r.0 × Without id l.feeds.node_state r.0) (λ r. IsValid r.0)
        (StateNodes.remove_node-IsValid f64 id l.feeds.node_state h.state)
        (λ r k. record { state = k.0; feeds = with_state r.0 l.feeds h.feeds })

  remove_group-IsValid :
      (ids : List NodeId) (l : InnerLoop bimap)
      → IsValid l
      → Returns (remove_group f64 ids l) (λ r. IsValid r.0)
  unfolding remove_group
  remove_group-IsValid [] l h = h
  remove_group-IsValid (id ∷ ids) l h =
      Returns-bind (remove_node f64 id l) _ (λ r. IsValid r.0) (λ r. IsValid r.0)
        (remove_node-IsValid id l h)
        (λ r k.
          Returns-bind (remove_group f64 ids r.0) _ (λ q. IsValid q.0) (λ q. IsValid q.0)
            (remove_group-IsValid ids r.0 k) (λ q j. j))

  remove_groups-IsValid :
      (groups : HashMap BlockHash (List NodeId)) (l : InnerLoop bimap)
      → IsValid l
      → Returns (remove_groups f64 groups l) (λ r. IsValid r.0)
  unfolding remove_groups
  remove_groups-IsValid [] l h = h
  remove_groups-IsValid (e ∷ es) l h =
      Returns-bind (remove_group f64 e.1 l) _ (λ r. IsValid r.0) (λ r. IsValid r.0)
        (remove_group-IsValid e.1 l h)
        (λ r k.
          Returns-bind (remove_groups f64 es r.0) _ (λ q. IsValid q.0) (λ q. IsValid q.0)
            (remove_groups-IsValid es r.0 k) (λ q j. j))

  remove_nodes-IsValid :
      (ids : List NodeId) (l : InnerLoop bimap)
      → IsValid l
      → Returns (remove_nodes_and_broadcast_result f64 ids l) (λ r. IsValid r.0)
  unfolding remove_nodes_and_broadcast_result
  remove_nodes-IsValid ids l h =
      Returns-bind (remove_groups f64 (group ids l.feeds.node_state []) l) _ (λ r. IsValid r.0)
        (λ r. IsValid r.0) (remove_groups-IsValid (group ids l.feeds.node_state []) l h) (λ r k. k)

  on_remove-IsValid :
      (o : Option NodeId) (conn : ConnId) (local_id : ShardNodeId) (l : InnerLoop bimap)
      → IsValid l
      → Returns (on_remove f64 o conn local_id l) (λ r. IsValid r.0)
  unfolding on_remove
  on_remove-IsValid none conn local_id l h = h
  on_remove-IsValid (some id) conn local_id l h =
      remove_nodes-IsValid (id ∷ []) _ (record { state = h.state; feeds = h.feeds })

  on_added-IsValid :
      (result : AddNodeResult) (s : State) (conn : ConnId) (local_id : ShardNodeId) (ip : IpAddr)
      (genesis_hash : BlockHash) (l : InnerLoop bimap)
      → IsValid l
      → Index.IsValid f64 s
      → IsValid (on_added result s conn local_id ip genesis_hash l).0
  unfolding on_added
  on_added-IsValid chain_on_deny_list s conn local_id ip genesis_hash l h k = record {
    state = k;
    feeds = with_state s l.feeds h.feeds;
  }
  on_added-IsValid chain_over_quota s conn local_id ip genesis_hash l h k = record {
    state = k;
    feeds = with_state s l.feeds h.feeds;
  }
  on_added-IsValid (node_added_to_chain added) s conn local_id ip genesis_hash l h k = record {
    state = k;
    feeds = with_state s l.feeds h.feeds;
  }

  -- The location of a node keeps the loop valid.
  pub handle_from_find_location-IsValid :
      (id : NodeId) (location : Location) (l : InnerLoop bimap)
      → IsValid l
      → IsValid (handle_from_find_location f64 id location l).0
  unfolding handle_from_find_location
  handle_from_find_location-IsValid id location l h = record {
    state = update_node_location-IsValid f64 id location l.feeds.node_state h.state;
    feeds = with_state _ l.feeds h.feeds;
  }

  module _ (floats : Floats) where
    on_update-IsValid :
        (o : Option NodeId) (readings : Readings) (payload : Payload) (l : InnerLoop bimap)
        → IsValid l
        → Returns (on_update f64 floats o readings payload l) (λ r. IsValid r.0)
    unfolding on_update
    on_update-IsValid none readings payload l h = h
    on_update-IsValid (some id) readings payload l h =
        Returns-bind
          (State.update_node floats f64 readings id payload l.feeds.expose_node_details
            l.feeds.node_state)
          _ (λ r. Index.IsValid f64 r.0 × Alike l.feeds.node_state r.0) (λ r. IsValid r.0)
          (update_node-IsValid f64 floats readings id payload l.feeds.expose_node_details
            l.feeds.node_state h.state)
          (λ r k. record { state = k.0; feeds = with_state r.0 l.feeds h.feeds })

    -- No message of a shard panics a loop whose state of the chains and whose subscriptions are
    -- valid, and they stay valid.
    pub handle_from_shard-IsValid :
        (outside : Outside) (conn : ConnId) (message : FromShardWebsocket) (l : InnerLoop bimap)
        → IsValid l
        → Returns (handle_from_shard f64 floats outside conn message l) (λ r. IsValid r.0)
    unfolding handle_from_shard
    handle_from_shard-IsValid outside conn (initialize channel) l h = record {
      state = h.state;
      feeds = h.feeds;
    }
    handle_from_shard-IsValid outside conn (add local_id ip node genesis_hash) l h =
        let details = record node {
          ip = then_some l.feeds.expose_node_details (outside.show ip);
        } in
        Returns-bind
          (State.add_node floats f64 outside.readings.now outside.readings.instant genesis_hash
            details l.feeds.node_state)
          _ (Told f64 floats outside.readings.now genesis_hash details l.feeds.node_state)
          (λ r. IsValid r.0)
          (add_node-Told f64 floats outside.readings.now outside.readings.instant genesis_hash
            details l.feeds.node_state h.state)
          (λ r k. on_added-IsValid r.1 r.0 conn local_id ip genesis_hash l h (
            Told-IsValid f64 floats outside.readings.now genesis_hash details l.feeds.node_state r
              h.state k))
    handle_from_shard-IsValid outside conn (remove local_id) l h =
        on_remove-IsValid (bimap.get_by_right (conn, local_id) l.node_ids) conn local_id l h
    handle_from_shard-IsValid outside conn (update local_id payload) l h =
        on_update-IsValid (bimap.get_by_right (conn, local_id) l.node_ids) outside.readings payload
          l h
    handle_from_shard-IsValid outside conn disconnected l h =
        remove_nodes-IsValid (ids_of conn (bimap.iter l.node_ids)) _
          (record { state = h.state; feeds = h.feeds })
