-- ===== src/Core/InnerLoop/Shards/Examples.antt =====
-- backend/telemetry_core/src/aggregator/inner_loop.rs, the messages of shards on concrete input.
use substrate_telemetry.Prelude.{
  ◌≡◌, ◌∙◌, sym, ap, is_some, Run, ok, panic, false, [], nat_key, Returns, refl, none, List,
  Option-cases, inl, inr,
}
use substrate_telemetry.Prelude.HashMap
use substrate_telemetry.Common.BiMap.Pairs.{pairs}
use substrate_telemetry.Common.InternalMessages.{v4}
use substrate_telemetry.Common.MultiMapUnique
use substrate_telemetry.Common.MultiMapUnique.Refinement.{new-IsValid}
use substrate_telemetry.Core.InnerLoop.Shards.{InnerLoop, Source, Outside, add, handle_from_shard}
use substrate_telemetry.Core.InnerLoop.Shards.Handling.{IsValid}
use substrate_telemetry.Core.InnerLoop.Shards.{Effect, disconnected, FromShardWebsocket}
use substrate_telemetry.Core.InnerLoop.Shards.Removal.{node_id_key}
use substrate_telemetry.Core.InnerLoop.Shards.Consistency.{
  IsConsistent, handle_from_shard-Consistent,
}
use substrate_telemetry.Core.InnerLoop.Shards.Disconnection.{
  unless_from, handle_from_shard-disconnected,
}
use substrate_telemetry.Common.BiMap.{BiMap, IsBiMap}
use substrate_telemetry.Common.BiMap.Pairs.{pairs-IsBiMap}
use substrate_telemetry.Core.State.Presence.{stored}
use substrate_telemetry.Core.State.{NodeId}
use substrate_telemetry.Core.State.Examples.{
  floats, percentage, details, empty, empty-IsValid, empty-stored,
}
use substrate_telemetry.Shard.Aggregator.{source_key}

loop : InnerLoop (pairs NodeId Source)
unfolding MultiMapUnique.new
loop = record {
  feeds = record {
    node_state = empty;
    feed_channels = [];
    chain_to_feed_conn_ids = MultiMapUnique.new;
    expose_node_details = false;
  };
  node_ids = (pairs NodeId Source).new;
  shard_channels = [];
}

outside : Outside
outside = record { readings = record { now = 1; instant = 2; stamp = 3 }; show = λ ip. [] }

loop-IsValid : IsValid percentage loop
unfolding loop HashMap.get
loop-IsValid = record {
  state = empty-IsValid;
  feeds = record { subscriptions = new-IsValid; reachable = λ w e. refl };
}

abbrev ids : BiMap NodeId Source
ids = pairs NodeId Source

laws : IsBiMap ids
laws = pairs-IsBiMap NodeId Source

loop-IsConsistent : IsConsistent percentage laws loop
unfolding loop
loop-IsConsistent = record {
  valid = loop-IsValid;
  known = λ id. ap is_some (laws.left-new id) ∙ sym (empty-stored id);
}

abbrev adding : FromShardWebsocket
adding = add 0 (v4 1) details 7

nothing_known : ids.get_by_right (1, 0) loop.node_ids ≡ none
unfolding loop
nothing_known = elim (Option-cases (ids.get_by_right (1, 0) ids.new)) [
  | inl e ↦ e
  | inr (id, e) ↦
      absurd
        (let stored_id = laws.to_left id (1, 0) ids.new e in let new_id = laws.left-new id in cc)
]

handle_from_shard-Consistent_example :
    Returns
      (handle_from_shard percentage floats outside 1 adding loop)
      (λ r. IsConsistent percentage laws r.0)
handle_from_shard-Consistent_example =
    handle_from_shard-Consistent percentage laws floats outside 1 adding loop loop-IsConsistent
      nothing_known

-- The loop once the node has been added.
loop_of : Run (InnerLoop ids × List Effect) → InnerLoop ids
loop_of (ok r) = r.0
loop_of panic = loop

one : InnerLoop ids
one = loop_of (handle_from_shard percentage floats outside 1 adding loop)

loop_of-IsConsistent :
    (r : Run (InnerLoop ids × List Effect))
    → Returns r (λ r. IsConsistent percentage laws r.0)
    → IsConsistent percentage laws (loop_of r)
unfolding loop_of
loop_of-IsConsistent (ok r) h = h
loop_of-IsConsistent panic h = absurd h

one-IsConsistent : IsConsistent percentage laws one
unfolding one
one-IsConsistent =
    loop_of-IsConsistent (handle_from_shard percentage floats outside 1 adding loop)
      handle_from_shard-Consistent_example

handle_from_shard-disconnected_example :
    Returns (handle_from_shard percentage floats outside 1 disconnected one) (λ r.
      ((j : NodeId)
        → ids.get_by_left j r.0.node_ids ≡ unless_from 1 (ids.get_by_left j one.node_ids))
      × ((j : NodeId)
          → stored r.0.feeds.node_state j
            ≡ is_some (unless_from 1 (ids.get_by_left j one.node_ids))))
handle_from_shard-disconnected_example =
    handle_from_shard-disconnected percentage laws floats outside 1 one one-IsConsistent
