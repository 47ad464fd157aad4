-- ===== src/Core/InnerLoop/Subscriptions.antt =====
-- backend/telemetry_core/src/aggregator/inner_loop.rs: which feed is subscribed to which chain, and
-- that what is broadcast to the feeds of a chain goes to its subscribers.
use substrate_telemetry.Prelude.{
  ℕ, ◌≡◌, refl, ite, Option, none, some, nat_key, ℕ_discrete, arith, and_then,
}
use substrate_telemetry.Prelude.HashMap
use substrate_telemetry.Prelude.HashMap.{HashMap}
use substrate_telemetry.Common.MultiMapUnique
use substrate_telemetry.Common.MultiMapUnique.{MultiMapUnique}
use substrate_telemetry.Common.MultiMapUnique.Refinement as Refinement
use substrate_telemetry.Common.MultiMapUnique.Refinement.{
  insert-IsValid, insert_lem, remove_value_lem,
}
use substrate_telemetry.Common.NodeTypes.{BlockHash}
use substrate_telemetry.Core.Chain.{Chain}
use substrate_telemetry.Core.State.{get_chain_by_genesis_hash}
use substrate_telemetry.Core.InnerLoop.{
  ConnId, FromFeedWebsocket, initialize, subscribe, ping, disconnected, Feeds, subscribe_new,
  on_subscribe, handle_from_feed,
}

-- The chain that a feed is subscribed to, by its genesis hash.
abbrev pub subscription : ConnId → Feeds → Option BlockHash
subscription conn s = HashMap.get conn s.chain_to_feed_conn_ids.value_to_key

-- The maps of subscriptions are in step, and a feed that is subscribed has a channel.
pub record IsValid (s : Feeds) : Type 0 where
  pub subscriptions : Refinement.IsValid s.chain_to_feed_conn_ids
  pub reachable :
      (conn : ConnId) → HashMap.get conn s.feed_channels ≡ none → subscription conn s ≡ none

-- The genesis hash of the chain that a hash finds.
abbrev pub found : Option Chain → Option BlockHash
found none = none
found (some chain) = some chain.genesis_hash

subscribe_new_lem :
    (o : Option Chain) (channel now conn : ℕ) (old : Option Chain) (s : Feeds) (w : ConnId)
    → subscription conn s ≡ none
    → subscription w (subscribe_new o channel now conn old s).0
      ≡ ite (ℕ_discrete conn w) (found o) (subscription w s)
unfolding subscribe_new
subscribe_new_lem none channel now conn old s w h = ground (arith, h)
subscribe_new_lem (some chain) channel now conn old s w h =
    insert_lem chain.genesis_hash conn w s.chain_to_feed_conn_ids

pub subscribe_new-subscriptions :
    (o : Option Chain) (channel now conn : ℕ) (old : Option Chain) (s : Feeds)
    → Refinement.IsValid s.chain_to_feed_conn_ids
    → Refinement.IsValid (subscribe_new o channel now conn old s).0.chain_to_feed_conn_ids
unfolding subscribe_new
subscribe_new-subscriptions none channel now conn old s h = h
subscribe_new-subscriptions (some chain) channel now conn old s h =
    insert-IsValid chain.genesis_hash conn s.chain_to_feed_conn_ids h

-- What a message makes of the subscriptions: a feed with a channel that subscribes has the chain
-- that its hash finds, or none, and one that disconnects has none.
unfoldable pub resubscribed : ConnId → FromFeedWebsocket → Feeds → ConnId → Option BlockHash
resubscribed conn (initialize channel) s w = subscription w s
resubscribed conn (ping value) s w = subscription w s
resubscribed conn (subscribe chain) s w =
    ite (ℕ_discrete conn w)
      (and_then (HashMap.get conn s.feed_channels)
        (λ channel. found (get_chain_by_genesis_hash s.node_state chain)))
      (subscription w s)
resubscribed conn disconnected s w = ite (ℕ_discrete conn w) none (subscription w s)

on_subscribe_lem :
    (o : Option ℕ) (now conn : ℕ) (chain : BlockHash) (s : Feeds) (w : ConnId)
    → HashMap.get conn s.feed_channels ≡ o
    → IsValid s
    → subscription w (on_subscribe o now conn chain s).0
      ≡ ite
          (ℕ_discrete conn w)
          (and_then o (λ channel. found (get_chain_by_genesis_hash s.node_state chain)))
          (subscription w s)
unfolding on_subscribe
on_subscribe_lem none now conn chain s w e h = ground (arith, h.reachable conn e)
on_subscribe_lem (some channel) now conn chain s w e h = ground (
  arith,
  subscribe_new_lem (get_chain_by_genesis_hash s.node_state chain) channel now conn
      (and_then (MultiMapUnique.remove_value conn s.chain_to_feed_conn_ids).1
        (get_chain_by_genesis_hash s.node_state))
      (record s {
        chain_to_feed_conn_ids = (MultiMapUnique.remove_value conn s.chain_to_feed_conn_ids).0;
      })
      w,
  remove_value_lem conn conn s.chain_to_feed_conn_ids,
  remove_value_lem conn w s.chain_to_feed_conn_ids,
)

-- From valid subscriptions, a message of a feed changes the subscription of no other feed; a feed
-- that subscribes is subscribed to the chain that the hash finds, or to none if it finds none.
pub handle_from_feed-resubscribed :
    (now : ℕ) (conn : ConnId) (message : FromFeedWebsocket) (s : Feeds) (w : ConnId)
    → IsValid s
    → subscription w (handle_from_feed now conn message s).0 ≡ resubscribed conn message s w
unfolding handle_from_feed resubscribed
handle_from_feed-resubscribed now conn (initialize channel) s w h = refl
handle_from_feed-resubscribed now conn (ping value) s w h = refl
handle_from_feed-resubscribed now conn (subscribe chain) s w h =
    on_subscribe_lem (HashMap.get conn s.feed_channels) now conn chain s w refl h
handle_from_feed-resubscribed now conn disconnected s w h =
    remove_value_lem conn w s.chain_to_feed_conn_ids
