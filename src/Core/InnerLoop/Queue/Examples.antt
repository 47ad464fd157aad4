-- ===== src/Core/InnerLoop/Queue/Examples.antt =====
-- backend/telemetry_core/src/aggregator/inner_loop.rs, the loop and its queue on concrete input.
use substrate_telemetry.Prelude.{◌≡◌, true, List, [], ◌∷◌, ◌++◌, Returns}
use substrate_telemetry.Common.BiMap.Pairs.{pairs}
use substrate_telemetry.Common.InternalMessages.{v4}
use substrate_telemetry.Common.NodeMessage.{afg_authority_set}
use substrate_telemetry.Core.InnerLoop.{initialize, subscribe}
use substrate_telemetry.Core.InnerLoop.Queue.{
  AggregatorOpts, ToAggregator, from_shard_websocket, from_feed_websocket, gather_metrics, new,
  new_queue, Turn, receives, handles, handle,
}
use substrate_telemetry.Core.InnerLoop.Queue.Dropping.{
  Step, comes, goes, essential, incoming, run, run-essential,
}
use substrate_telemetry.Core.InnerLoop.Queue.Safety.{handle-IsValid}
use substrate_telemetry.Core.InnerLoop.Shards.{Source, Outside, add, update}
use substrate_telemetry.Core.InnerLoop.Shards.Handling.{IsValid}
use substrate_telemetry.Core.InnerLoop.Shards.Removal.{node_id_key}
use substrate_telemetry.Core.State.{NodeId}
use substrate_telemetry.Core.State.Examples.{floats, percentage, details}
use substrate_telemetry.Shard.Aggregator.{source_key}

abbrev opts : AggregatorOpts
opts = record {
  denylist = [];
  max_queue_len = 1;
  max_third_party_nodes = 5;
  expose_node_details = true;
}

abbrev outside : Outside
outside = record { readings = record { now = 1; instant = 2; stamp = 3 }; show = λ ip. [] }

abbrev an_update : ToAggregator
an_update = from_shard_websocket 1 (update 0 (afg_authority_set (record { authority_id = [] })))

-- A node is added and updated, and a feed subscribes to its chain.
abbrev turns : List Turn
turns =
    receives (from_shard_websocket 1 (add 0 (v4 1) details 7))
    ∷ receives (from_feed_websocket 1 (initialize 9))
    ∷ receives an_update
    ∷ handles outside (λ channel. 0)
    ∷ receives (from_feed_websocket 1 (subscribe 7))
    ∷ handles outside (λ channel. 0)
    ∷ receives an_update
    ∷ handles outside (λ channel. 0)
    ∷ handles outside (λ channel. 0)
    ∷ receives (gather_metrics 2)
    ∷ handles outside (λ channel. 0)
    ∷ []

handle-IsValid_example :
    Returns
      (handle percentage floats 1 turns new_queue (new {bimap = pairs NodeId Source} opts))
      (λ r. IsValid percentage r.1.0)
handle-IsValid_example = handle-IsValid percentage floats (pairs NodeId Source) opts turns

-- The second update comes in when two messages wait, and is dropped.
abbrev steps : List Step
steps = comes an_update ∷ comes (gather_metrics 2) ∷ comes an_update ∷ goes ∷ comes an_update ∷ []

run-essential_example :
    essential ((run 1 steps new_queue).1 ++ (run 1 steps new_queue).0.messages)
    ≡ essential (incoming steps)
run-essential_example = run-essential 1 steps new_queue
