-- ===== src/Core/InnerLoop/Validity.antt =====
-- backend/telemetry_core/src/aggregator/inner_loop.rs: the messages of feeds keep the subscriptions
-- valid.
use substrate_telemetry.Prelude.{ℕ, ◌≡◌, refl, sym, ap, ◌∙◌, Option, none, some, nat_key, arith}
use substrate_telemetry.Prelude.HashMap
use substrate_telemetry.Prelude.HashMap.{HashMap, get-insert, get-remove}
use substrate_telemetry.Common.MultiMapUnique.Refinement as Refinement
use substrate_telemetry.Common.MultiMapUnique.Refinement.{remove_value-IsValid}
use substrate_telemetry.Common.NodeTypes.{BlockHash}
use substrate_telemetry.Core.Chain.{Chain}
use substrate_telemetry.Core.State.{get_chain_by_genesis_hash}
use substrate_telemetry.Core.InnerLoop.{
  ConnId, FromFeedWebsocket, initialize, subscribe, ping, disconnected, Feeds, subscribe_new,
  on_subscribe, handle_from_feed,
}
use substrate_telemetry.Core.InnerLoop.Subscriptions.{
  IsValid, resubscribed, subscribe_new-subscriptions, handle_from_feed-resubscribed,
}

feed_channels-subscribe_new :
    (o : Option Chain) (channel now conn : ℕ) (old : Option Chain) (s : Feeds)
    → (subscribe_new o channel now conn old s).0.feed_channels ≡ s.feed_channels
unfolding subscribe_new
feed_channels-subscribe_new none channel now conn old s = refl
feed_channels-subscribe_new (some chain) channel now conn old s = refl

feed_channels-on_subscribe :
    (o : Option ℕ) (now conn : ℕ) (chain : BlockHash) (s : Feeds)
    → (on_subscribe o now conn chain s).0.feed_channels ≡ s.feed_channels
unfolding on_subscribe
feed_channels-on_subscribe none now conn chain s = refl
feed_channels-on_subscribe (some channel) now conn chain s =
    feed_channels-subscribe_new (get_chain_by_genesis_hash s.node_state chain) channel now conn _ _

on_subscribe-subscriptions :
    (o : Option ℕ) (now conn : ℕ) (chain : BlockHash) (s : Feeds)
    → Refinement.IsValid s.chain_to_feed_conn_ids
    → Refinement.IsValid (on_subscribe o now conn chain s).0.chain_to_feed_conn_ids
unfolding on_subscribe
on_subscribe-subscriptions none now conn chain s h = h
on_subscribe-subscriptions (some channel) now conn chain s h =
    subscribe_new-subscriptions (get_chain_by_genesis_hash s.node_state chain) channel now conn _ _
      (remove_value-IsValid conn s.chain_to_feed_conn_ids h)

-- Any message of a feed keeps the subscriptions valid: the two maps of subscriptions are in step,
-- and every feed that is subscribed to a chain has a channel.
pub handle_from_feed-IsValid :
    (now : ℕ) (conn : ConnId) (message : FromFeedWebsocket) (s : Feeds)
    → IsValid s
    → IsValid (handle_from_feed now conn message s).0
unfolding handle_from_feed resubscribed
handle_from_feed-IsValid now conn (initialize channel) s h = record {
  subscriptions = h.subscriptions;
  reachable = λ w e. ground (arith, get-insert conn w channel s.feed_channels, h.reachable w, e);
}
handle_from_feed-IsValid now conn (ping value) s h = h
handle_from_feed-IsValid now conn (subscribe chain) s h = record {
  subscriptions = on_subscribe-subscriptions _ now conn chain s h.subscriptions;
  reachable = λ w e. ground (
    arith,
    handle_from_feed-resubscribed now conn (subscribe chain) s w h,
    sym (
          ap (HashMap.get w)
            (feed_channels-on_subscribe (HashMap.get conn s.feed_channels) now conn chain s))
        ∙ e,
    h.reachable w,
  );
}
handle_from_feed-IsValid now conn disconnected s h = record {
  subscriptions = remove_value-IsValid conn s.chain_to_feed_conn_ids h.subscriptions;
  reachable = λ w e. ground (
    arith,
    handle_from_feed-resubscribed now conn disconnected s w h,
    get-remove conn w s.feed_channels,
    h.reachable w,
    e,
  );
}
