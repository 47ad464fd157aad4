-- ===== src/Core/InnerLoop/Queue/Safety.antt =====
-- backend/telemetry_core/src/aggregator/inner_loop.rs: the loop of the core's aggregator does not panic.
use substrate_telemetry.Prelude.{
  ℕ, ◌≡◌, refl, sym, subst, Option, none, some, List, [], ◌∷◌, nat_key, Returns, Returns-bind,
}
use substrate_telemetry.Prelude.HashMap
use substrate_telemetry.Common.BiMap.{BiMap}
use substrate_telemetry.Common.MultiMapUnique
use substrate_telemetry.Common.MultiMapUnique.{MultiMapUnique}
use substrate_telemetry.Common.MultiMapUnique.Refinement
use substrate_telemetry.Common.NodeTypes.{BlockHash}
use substrate_telemetry.Core.Chain.{Chain}
use substrate_telemetry.Core.ChainStats.{F64}
use substrate_telemetry.Core.InnerLoop.{
  ConnId, Feeds, FromFeedWebsocket, initialize, subscribe, ping, disconnected, handle_from_feed,
  on_subscribe, subscribe_new,
}
use substrate_telemetry.Core.InnerLoop.Queue.{
  ToAggregator, from_shard_websocket, from_feed_websocket, from_find_location, gather_metrics,
  AggregatorOpts, Queue, new_queue, receive, new, handle_message, Turn, receives, handles,
  handle_next, handle,
}
use substrate_telemetry.Core.InnerLoop.Shards.{InnerLoop, Source, Outside, handle_from_shard}
use substrate_telemetry.Core.InnerLoop.Shards.Handling.{
  IsValid, handle_from_shard-IsValid, handle_from_find_location-IsValid,
}
use substrate_telemetry.Core.InnerLoop.Validity.{handle_from_feed-IsValid}
use substrate_telemetry.Core.Node.{Floats}
use substrate_telemetry.Core.State.{NodeId}
use substrate_telemetry.Core.State.Index as Index

node_state-subscribe_new :
    (o : Option Chain) (channel now conn : ℕ) (old : Option Chain) (s : Feeds)
    → (subscribe_new o channel now conn old s).0.node_state ≡ s.node_state
unfolding subscribe_new
node_state-subscribe_new none channel now conn old s = refl
node_state-subscribe_new (some chain) channel now conn old s = refl

node_state-on_subscribe :
    (o : Option ℕ) (now conn : ℕ) (chain : BlockHash) (s : Feeds)
    → (on_subscribe o now conn chain s).0.node_state ≡ s.node_state
unfolding on_subscribe
node_state-on_subscribe none now conn chain s = refl
node_state-on_subscribe (some channel) now conn chain s =
    node_state-subscribe_new _ channel now conn _ _

-- A message of a feed leaves the state of the chains as it is.
node_state-handle_from_feed :
    (now : ℕ) (conn : ConnId) (msg : FromFeedWebsocket) (s : Feeds)
    → (handle_from_feed now conn msg s).0.node_state ≡ s.node_state
unfolding handle_from_feed
node_state-handle_from_feed now conn (initialize channel) s = refl
node_state-handle_from_feed now conn (ping value) s = refl
node_state-handle_from_feed now conn (subscribe chain) s =
    node_state-on_subscribe (HashMap.get conn s.feed_channels) now conn chain s
node_state-handle_from_feed now conn disconnected s = refl

module _ (f64 : F64) {bimap : BiMap NodeId Source} where
  new-IsValid : (opts : AggregatorOpts) → IsValid f64 (new {bimap = bimap} opts)
  unfolding new HashMap.get MultiMapUnique.new
  new-IsValid opts = record {
    state = Index.new-IsValid f64 opts.denylist opts.max_third_party_nodes;
    feeds = record { subscriptions = Refinement.new-IsValid; reachable = λ w e. refl };
  }

  module _ (floats : Floats) where
    handle_message-IsValid :
        (outside : Outside) (len : ℕ → ℕ) (q : Queue) (msg : ToAggregator) (l : InnerLoop bimap)
        → IsValid f64 l
        → Returns (handle_message f64 floats outside len q msg l) (λ r. IsValid f64 r.0)
    unfolding handle_message
    handle_message-IsValid outside len q (from_feed_websocket conn msg) l h = record {
      state =
          subst (Index.IsValid f64)
            (sym (node_state-handle_from_feed outside.readings.now conn msg l.feeds)) h.state;
      feeds = handle_from_feed-IsValid outside.readings.now conn msg l.feeds h.feeds;
    }
    handle_message-IsValid outside len q (from_shard_websocket conn msg) l h =
        Returns-bind (handle_from_shard f64 floats outside conn msg l) _ (λ r. IsValid f64 r.0)
          (λ r. IsValid f64 r.0) (handle_from_shard-IsValid f64 floats outside conn msg l h)
          (λ r k. k)
    handle_message-IsValid outside len q (from_find_location id location) l h =
        handle_from_find_location-IsValid f64 id location l h
    handle_message-IsValid outside len q (gather_metrics channel) l h = h

    handle_next-IsValid :
        (outside : Outside) (len : ℕ → ℕ) (messages : List ToAggregator) (q : Queue)
        (l : InnerLoop bimap)
        → IsValid f64 l
        → Returns (handle_next f64 floats outside len messages q l) (λ r. IsValid f64 r.1.0)
    unfolding handle_next
    handle_next-IsValid outside len [] q l h = h
    handle_next-IsValid outside len (msg ∷ messages) q l h =
        Returns-bind
          (handle_message f64 floats outside len (record q { messages = messages }) msg l) _
          (λ r. IsValid f64 r.0) (λ r. IsValid f64 r.1.0)
          (handle_message-IsValid outside len (record q { messages = messages }) msg l h) (λ r k. k)

    handle-IsValid_from :
        (max_queue_len : ℕ) (turns : List Turn) (q : Queue) (l : InnerLoop bimap)
        → IsValid f64 l
        → Returns (handle f64 floats max_queue_len turns q l) (λ r. IsValid f64 r.1.0)
    unfolding handle
    handle-IsValid_from max_queue_len [] q l h = h
    handle-IsValid_from max_queue_len (receives msg ∷ turns) q l h =
        handle-IsValid_from max_queue_len turns (receive max_queue_len msg q) l h
    handle-IsValid_from max_queue_len (handles outside len ∷ turns) q l h =
        Returns-bind (handle_next f64 floats outside len q.messages q l) _ (λ r. IsValid f64 r.1.0)
          (λ r. IsValid f64 r.1.0) (handle_next-IsValid outside len q.messages q l h)
          (λ r k.
            Returns-bind (handle f64 floats max_queue_len turns r.0 r.1.0) _
              (λ s. IsValid f64 s.1.0) (λ s. IsValid f64 s.1.0)
              (handle-IsValid_from max_queue_len turns r.0 r.1.0 k) (λ s j. j))

-- Whatever messages the loop of a new aggregator receives of feeds, of shards and of the locator, and
-- whenever it handles them, it does not panic, and its state of the chains and its subscriptions
-- are valid.
pub handle-IsValid :
    (f64 : F64) (floats : Floats) (bimap : BiMap NodeId Source) (opts : AggregatorOpts)
    (turns : List Turn)
    → Returns
        (handle f64 floats opts.max_queue_len turns new_queue (new {bimap = bimap} opts))
        (λ r. IsValid f64 r.1.0)
handle-IsValid f64 floats bimap opts turns =
    handle-IsValid_from f64 floats opts.max_queue_len turns new_queue (new opts)
      (new-IsValid f64 opts)
