-- ===== src/Core/InnerLoop/Examples.antt =====
-- backend/telemetry_core/src/aggregator/inner_loop.rs, on concrete input.
use substrate_telemetry.Prelude.{Option, some, Text, inr}
use substrate_telemetry.Common.NodeTypes.{BlockHash}
use substrate_telemetry.Core.InnerLoop.{ping}
use substrate_telemetry.Core.InnerLoop.Commands.{from_str, Writes, from_str-Writes}
use substrate_telemetry.Prelude.{ℕ, ◌≡◌, ◌↔◌, false, some, [], ◌∷◌, nat_key, arith}
use substrate_telemetry.Prelude.HashMap
use substrate_telemetry.Common.MultiMapUnique
use substrate_telemetry.Common.MultiMapUnique.Refinement.{new-IsValid, insert-IsValid, insert_lem}
use substrate_telemetry.Core.Feed.{pong}
use substrate_telemetry.Core.State
use substrate_telemetry.Core.InnerLoop.{
  ConnId, subscribe, Feeds, handle_from_feed, finalize_and_broadcast_to_chain_feeds,
}
use substrate_telemetry.Core.InnerLoop.Broadcast.{Sends, broadcast-subscribers}
use substrate_telemetry.Core.InnerLoop.Subscriptions.{
  subscription, IsValid, resubscribed, handle_from_feed-resubscribed,
}

-- Feed 4 has the channel 9, and is subscribed to the chain 7.
feeds : Feeds
feeds = record {
  node_state = State.new [] 10;
  feed_channels = (4, 9) ∷ [];
  chain_to_feed_conn_ids = (MultiMapUnique.insert 7 4 MultiMapUnique.new).0;
  expose_node_details = false;
}

feeds-IsValid : IsValid feeds
unfolding feeds MultiMapUnique.new HashMap.get
feeds-IsValid = record {
  subscriptions = insert-IsValid 7 4 MultiMapUnique.new new-IsValid;
  reachable = λ w e. ground (arith, insert_lem {K = ℕ} {V = ℕ} 7 4 w MultiMapUnique.new, e);
}

handle_from_feed-resubscribed_example :
    subscription 4 (handle_from_feed 5 4 (subscribe 8) feeds).0
    ≡ resubscribed 4 (subscribe 8) feeds 4
handle_from_feed-resubscribed_example =
    handle_from_feed-resubscribed 5 4 (subscribe 8) feeds 4 feeds-IsValid

broadcast-subscribers_example :
    Sends (9, pong [] ∷ []) (finalize_and_broadcast_to_chain_feeds 7 (pong [] ∷ []) feeds) ↔ (
      (w : ConnId) × ((subscription w feeds ≡ some 7)
        × ((HashMap.get w feeds.feed_channels ≡ some 9) × ((pong [] ∷ []) ≡ (pong [] ∷ [])))))
broadcast-subscribers_example =
    broadcast-subscribers 7 (pong []) [] feeds (9, pong [] ∷ []) feeds-IsValid

hash_seven : Text → Option BlockHash
hash_seven s = some 7

from_str-Writes_example :
    (from_str hash_seven (112 ∷ 105 ∷ 110 ∷ 103 ∷ 58 ∷ 1 ∷ []) ≡ inr (ping (1 ∷ [])))
    ↔ Writes hash_seven (112 ∷ 105 ∷ 110 ∷ 103 ∷ 58 ∷ 1 ∷ []) (ping (1 ∷ []))
from_str-Writes_example =
    from_str-Writes hash_seven (112 ∷ 105 ∷ 110 ∷ 103 ∷ 58 ∷ 1 ∷ []) (ping (1 ∷ []))
