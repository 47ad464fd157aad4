-- ===== src/Shard/Aggregator.antt =====
-- backend/telemetry_shard/src/aggregator.rs: the loop that turns what the node connections and the
-- telemetry core say into messages for the core. A channel is a number, and what the loop sends is
-- the list of its effects; a send is taken to succeed.
pub mod Traces
mod Invariant
pub mod Disconnection
pub mod Lawful
pub mod Examples
use substrate_telemetry.Prelude.{
  ℕ, ite, Bool, true, false, Option, none, some, List, [], ◌∷◌, ◌++◌, Key, nat_key, ℕ_discrete,
  if◌then◌else◌,
}
use substrate_telemetry.Prelude.HashMap
use substrate_telemetry.Prelude.HashMap.{HashMap}
use substrate_telemetry.Common.AssignId
use substrate_telemetry.Common.AssignId.{AssignId}
use substrate_telemetry.Common.BiMap.{BiMap}
use substrate_telemetry.Common.InternalMessages.{
  FromShardAggregator, add_node, update_node, remove_node, FromTelemetryCore, mute, IpAddr,
  ShardNodeId,
}
use substrate_telemetry.Common.NodeMessage.{Payload}
use substrate_telemetry.Common.NodeTypes.{BlockHash, NodeDetails}

abbrev pub ConnId : Type 0
ConnId = ℕ

-- A connection and the id of its messages about one node.
abbrev pub Source : Type 0
Source = ConnId × ℕ

unfoldable Source-discrete : Discrete Source
Source-discrete = hlevel ℕ_discrete

instance unfoldable pub source_key : Key Source
unfolding Source-discrete
source_key = record { dec = Source-discrete }

pub data FromWebsocket : Type 0 where
  initialize : (close_connection : ℕ) → FromWebsocket
  add :
      (message_id : ℕ) (ip : IpAddr) (node : NodeDetails) (genesis_hash : BlockHash) → FromWebsocket
  update : (message_id : ℕ) (payload : Payload) → FromWebsocket
  remove : (message_id : ℕ) → FromWebsocket
  disconnected : FromWebsocket

pub data ToAggregator : Type 0 where
  disconnected_from_telemetry_core connected_to_telemetry_core : ToAggregator
  from_websocket : ConnId → FromWebsocket → ToAggregator
  from_telemetry_core : FromTelemetryCore → ToAggregator

pub data Effect : Type 0 where
  close : (channel : ℕ) → Effect
  send : FromShardAggregator → Effect

-- The variables of `handle_messages`.
pub record Aggregator (bimap : BiMap ℕ Source) : Type 0 where
  pub connected_to_telemetry_core : Bool
  pub close_connections : HashMap ConnId ℕ
  pub to_local_id : AssignId bimap
  pub muted : HashMap ShardNodeId Unit

pub new : (bimap : BiMap ℕ Source) → Aggregator bimap
new bimap = record {
  connected_to_telemetry_core = false;
  close_connections = [];
  to_local_id = AssignId.new bimap;
  muted = [];
}

-- `for (_, closer) in closers`
pub close_all : HashMap ConnId ℕ → List Effect
close_all [] = []
close_all (e ∷ m) = close e.1 ∷ close_all m

-- The local ids of a connection, in the order of the iterator.
pub ids_of : ConnId → List (ShardNodeId × Source) → List ShardNodeId
ids_of conn [] = []
ids_of conn (e ∷ es) = let rest = ids_of conn es in ite (ℕ_discrete conn e.1.0) (e.0 ∷ rest) rest

-- A message for the core, sent only while it is connected.
abbrev pub send_if : Bool → FromShardAggregator → List Effect
send_if true message = send message ∷ []
send_if false message = []

-- `FromWebsocket::Update`, with whether the core is connected, what `get_id` found, and the muted.
update_unless : Option {0} Unit → ShardNodeId → Payload → List Effect
update_unless (some _) local_id payload = []
update_unless none local_id payload = send (update_node local_id payload) ∷ []

pub on_update : Bool → Option ShardNodeId → HashMap ShardNodeId Unit → Payload → List Effect
unfolding update_unless
on_update false _ muted payload = []
on_update true none muted payload = []
on_update true (some local_id) muted payload =
    update_unless (HashMap.get local_id muted) local_id payload

module _ {bimap : BiMap ℕ Source} where
  -- `ConnectedToTelemetryCore`
  pub on_connected : Aggregator bimap → Aggregator bimap × List Effect
  unfolding close_all
  on_connected a = (
    record {
      connected_to_telemetry_core = true;
      close_connections = [];
      to_local_id = AssignId.clear a.to_local_id;
      muted = [];
    },
    close_all a.close_connections,
  )

  -- `FromWebsocket::Add`, with whether the core is connected.
  pub on_add :
      Bool
      → ConnId
      → ℕ
      → IpAddr
      → NodeDetails
      → BlockHash
      → Aggregator bimap
      → Aggregator bimap × List Effect
  on_add false conn message_id ip node genesis_hash a = (a, [])
  on_add true conn message_id ip node genesis_hash a =
      let (ids, local_id) = AssignId.assign_id (conn, message_id) a.to_local_id in
      (record a { to_local_id = ids }, send (add_node ip node local_id genesis_hash) ∷ [])

  -- One local id leaves, and the core is told if it is connected.
  remove_local_id : ShardNodeId → Aggregator bimap → Aggregator bimap × List Effect
  remove_local_id id a = (
    record a {
      to_local_id = (AssignId.remove_by_id id a.to_local_id).0;
      muted = HashMap.remove id a.muted;
    },
    send_if a.connected_to_telemetry_core (remove_node id),
  )

  -- `FromWebsocket::Remove`, with what `get_id` found.
  pub on_remove : Option ShardNodeId → Aggregator bimap → Aggregator bimap × List Effect
  unfolding remove_local_id
  on_remove none a = (a, [])
  on_remove (some id) a = remove_local_id id a

  -- `for local_id in local_ids_disconnected`
  remove_local_ids : List ShardNodeId → Aggregator bimap → Aggregator bimap × List Effect
  unfolding remove_local_id
  remove_local_ids [] a = (a, [])
  remove_local_ids (id ∷ ids) a =
      let (removed, effects) = remove_local_id id a in
      let (rest, more) = remove_local_ids ids removed in (rest, effects ++ more)

  -- `FromWebsocket::Disconnected`
  pub on_disconnected : ConnId → Aggregator bimap → Aggregator bimap × List Effect
  unfolding remove_local_ids ids_of
  on_disconnected conn a =
      remove_local_ids (ids_of conn (AssignId.iter a.to_local_id))
        (record a { close_connections = HashMap.remove conn a.close_connections })

  on_websocket : ConnId → FromWebsocket → Aggregator bimap → Aggregator bimap × List Effect
  unfolding on_add on_update on_remove on_disconnected
  on_websocket conn (initialize channel) a =
      (record a { close_connections = HashMap.insert conn channel a.close_connections }, [])
  on_websocket conn (add message_id ip node genesis_hash) a =
      on_add a.connected_to_telemetry_core conn message_id ip node genesis_hash a
  on_websocket conn (update message_id payload) a = (
    a,
    on_update a.connected_to_telemetry_core (AssignId.get_id (conn, message_id) a.to_local_id)
        a.muted payload,
  )
  on_websocket conn (remove message_id) a =
      on_remove (AssignId.get_id (conn, message_id) a.to_local_id) a
  on_websocket conn disconnected a = on_disconnected conn a

  -- One turn of the loop in `handle_messages`: the state after it, and what it sent.
  pub handle_message : ToAggregator → Aggregator bimap → Aggregator bimap × List Effect
  unfolding on_connected on_websocket
  handle_message connected_to_telemetry_core a = on_connected a
  handle_message disconnected_from_telemetry_core a =
      (record a { connected_to_telemetry_core = false }, [])
  handle_message (from_websocket conn message) a = on_websocket conn message a
  handle_message (from_telemetry_core (mute local_id reason)) a =
      (record a { muted = HashMap.insert local_id tt a.muted }, [])
