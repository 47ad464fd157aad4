-- ===== src/Core/InnerLoop/Queue.antt =====
-- backend/telemetry_core/src/aggregator/inner_loop.rs: `new`, `handle` and `handle_gather_metrics`: the queue of
-- messages, which drops updates when it is too long, and the loop that takes the messages from it.
-- The queue has no limit, and its two ends take turns in any order.
mod Dropping
mod Safety
mod Examples
use substrate_telemetry.Prelude.{
  ℕ, Bool, true, false, ◌&&◌, List, [], ◌∷◌, ◌++◌, map, nat_key, Text, ltb, length, sum,
  if◌then◌else◌, Run, ok, ◌>>=◌, add64,
}
use substrate_telemetry.Prelude.HashMap
use substrate_telemetry.Prelude.HashMap.{HashMap}
use substrate_telemetry.Common.BiMap.{BiMap}
use substrate_telemetry.Common.MultiMapUnique
use substrate_telemetry.Common.NodeTypes.{Location}
use substrate_telemetry.Core.ChainStats.{F64}
use substrate_telemetry.Core.InnerLoop.{ConnId, FromFeedWebsocket, handle_from_feed}
use substrate_telemetry.Core.InnerLoop.Shards.{
  InnerLoop, Source, Outside, Effect, to_feed, FromShardWebsocket, update, handle_from_shard,
  handle_from_find_location,
}
use substrate_telemetry.Core.Node.{Floats}
use substrate_telemetry.Core.State
use substrate_telemetry.Core.State.{NodeId}

pub data ToAggregator : Type 0 where
  from_shard_websocket : ConnId → FromShardWebsocket → ToAggregator
  from_feed_websocket : ConnId → FromFeedWebsocket → ToAggregator
  from_find_location : NodeId → Location → ToAggregator
  gather_metrics : (channel : ℕ) → ToAggregator

pub record Metrics : Type 0 where
  pub timestamp_unix_ms : ℕ
  pub chains_subscribed_to : ℕ
  pub subscribed_feeds : ℕ
  pub total_messages_to_feeds : ℕ
  pub current_messages_to_aggregator : ℕ
  pub total_messages_to_aggregator : ℕ
  pub dropped_messages_to_aggregator : ℕ
  pub connected_nodes : ℕ
  pub connected_feeds : ℕ
  pub connected_shards : ℕ

-- What the loop reads of `AggregatorOpts`.
pub record AggregatorOpts : Type 0 where
  pub denylist : List Text
  pub max_queue_len : ℕ
  pub max_third_party_nodes : ℕ
  pub expose_node_details : Bool

-- The messages that were not handled yet, and the two counters.
pub record Queue : Type 0 where
  pub messages : List ToAggregator
  pub total_messages : ℕ
  pub dropped_messages : ℕ

abbrev pub new_queue : Queue
new_queue = record { messages = []; total_messages = 0; dropped_messages = 0 }

-- `matches!(msg, FromShardWebsocket(.., Update { .. }))`
abbrev pub is_update : ToAggregator → Bool
is_update (from_shard_websocket conn (update local_id payload)) = true
is_update _ = false

-- A message from outside; the counters wrap.
pub receive : (max_queue_len : ℕ) → ToAggregator → Queue → Queue
receive max_queue_len msg q =
    if ltb max_queue_len (length q.messages) && is_update msg
    then record q {
      total_messages = add64 q.total_messages 1;
      dropped_messages = add64 q.dropped_messages 1;
    }
    else record q { total_messages = add64 q.total_messages 1; messages = q.messages ++ msg ∷ [] }

pub data Reply : Type 0 where
  effect : Effect → Reply
  metrics : (channel : ℕ) → Metrics → Reply

-- The lengths of the channels of the feeds.
abbrev pub waiting : (ℕ → ℕ) → HashMap ConnId ℕ → List ℕ
waiting len [] = []
waiting len (e ∷ es) = len e.1 ∷ waiting len es

module _ {bimap : BiMap NodeId Source} where
  -- `InnerLoop::new`
  unfoldable pub new : AggregatorOpts → InnerLoop bimap
  new opts = record {
    feeds = record {
      node_state = State.new opts.denylist opts.max_third_party_nodes;
      feed_channels = [];
      chain_to_feed_conn_ids = MultiMapUnique.new;
      expose_node_details = opts.expose_node_details;
    };
    node_ids = bimap.new;
    shard_channels = [];
  }

  -- `len` is the length of a channel; the length of the two-way map is that of its iterator.
  pub handle_gather_metrics : (now : ℕ) → (len : ℕ → ℕ) → Queue → InnerLoop bimap → Metrics
  handle_gather_metrics now len q l = record {
    timestamp_unix_ms = now;
    chains_subscribed_to = MultiMapUnique.num_keys l.feeds.chain_to_feed_conn_ids;
    subscribed_feeds = MultiMapUnique.num_values l.feeds.chain_to_feed_conn_ids;
    total_messages_to_feeds = sum (waiting len l.feeds.feed_channels);
    current_messages_to_aggregator = length q.messages;
    total_messages_to_aggregator = q.total_messages;
    dropped_messages_to_aggregator = q.dropped_messages;
    connected_nodes = length (bimap.iter l.node_ids);
    connected_feeds = length l.feeds.feed_channels;
    connected_shards = length l.shard_channels;
  }

  -- The loop that takes messages, on one message; `q` is what is left of the queue.
  pub handle_message :
      F64
      → Floats
      → Outside
      → (len : ℕ → ℕ) → Queue
      → ToAggregator
      → InnerLoop bimap
      → Run (InnerLoop bimap × List Reply)
  unfolding handle_gather_metrics
  handle_message f64 floats outside len q (from_feed_websocket conn msg) l =
      let (feeds, sent) = handle_from_feed outside.readings.now conn msg l.feeds in
      ok (record l { feeds = feeds }, map (λ s. effect (to_feed s)) sent)
  handle_message f64 floats outside len q (from_shard_websocket conn msg) l = do
    (l', effects) ← handle_from_shard f64 floats outside conn msg l
    ok (l', map effect effects)
  handle_message f64 floats outside len q (from_find_location id location) l =
      let (l', effects) = handle_from_find_location f64 id location l in ok (l', map effect effects)
  handle_message f64 floats outside len q (gather_metrics channel) l =
      ok (l, metrics channel (handle_gather_metrics outside.readings.now len q l) ∷ [])

-- A turn of one of the two ends of the queue.
pub data Turn : Type 0 where
  receives : ToAggregator → Turn
  handles : Outside → (len : ℕ → ℕ) → Turn

module _ (f64 : F64) (floats : Floats) {bimap : BiMap NodeId Source} where
  -- The next message, if there is one.
  pub handle_next :
      Outside
      → (len : ℕ → ℕ) → List ToAggregator
      → Queue
      → InnerLoop bimap
      → Run (Queue × (InnerLoop bimap × List Reply))
  unfolding handle_message
  handle_next outside len [] q l = ok (q, (l, []))
  handle_next outside len (msg ∷ messages) q l = do
    let q' = record q { messages = messages }
    r ← handle_message f64 floats outside len q' msg l
    ok (q', r)

  -- `handle`
  pub handle :
      (max_queue_len : ℕ)
      → List Turn
      → Queue
      → InnerLoop bimap
      → Run (Queue × (InnerLoop bimap × List Reply))
  unfolding handle_next receive
  handle max_queue_len [] q l = ok (q, (l, []))
  handle max_queue_len (receives msg ∷ turns) q l =
      handle max_queue_len turns (receive max_queue_len msg q) l
  handle max_queue_len (handles outside len ∷ turns) q l = do
    (q', r) ← handle_next outside len q.messages q l
    (q'', s) ← handle max_queue_len turns q' r.0
    ok (q'', (s.0, r.1 ++ s.1))
