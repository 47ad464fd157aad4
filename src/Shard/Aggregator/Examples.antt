-- ===== src/Shard/Aggregator/Examples.antt =====
-- backend/telemetry_shard/src/aggregator.rs, on concrete input.
use substrate_telemetry.Prelude.{nat_key, ℕ, ◌≡◌, none, List, [], ◌∷◌, arith}
use substrate_telemetry.Common.AssignId
use substrate_telemetry.Common.BiMap.Pairs.{pairs, pairs-IsBiMap}
use substrate_telemetry.Common.InternalMessages.{v4, mute, overquota}
use substrate_telemetry.Common.NodeMessage.{Payload, afg_authority_set}
use substrate_telemetry.Common.NodeTypes.{NodeDetails}
use substrate_telemetry.Shard.Aggregator.{
  source_key, Source, ToAggregator, initialize, add, update, disconnected,
  connected_to_telemetry_core, from_websocket, from_telemetry_core, handle_message, ids_of,
}
use substrate_telemetry.Shard.Aggregator.Disconnection.{
  unless_from, removals, handle_message-disconnected,
}
use substrate_telemetry.Shard.Aggregator.Lawful.{run-Lawful}
use substrate_telemetry.Shard.Aggregator.Traces.{Lawful, run}

abbrev pub details : NodeDetails
details = record {
  chain = 1 ∷ [];
  name = 2 ∷ [];
  implementation = [];
  version = [];
  validator = none;
  network_id = [];
  startup_time = none;
  target_os = none;
  target_arch = none;
  target_env = none;
  sysinfo = none;
  ip = none;
}

abbrev payload : Payload
payload = afg_authority_set (record { authority_id = [] })

-- Connection 1 adds its node 0 and updates it, the core mutes it, and the connection is lost.
abbrev messages : List ToAggregator
messages =
    from_websocket 1 disconnected
    ∷ from_telemetry_core (mute 0 overquota)
    ∷ from_websocket 1 (update 0 payload)
    ∷ from_websocket 1 (add 0 (v4 1) details 7)
    ∷ from_websocket 1 (initialize 9)
    ∷ connected_to_telemetry_core
    ∷ []

run-Lawful_example : Lawful (run (pairs ℕ Source) messages).1
run-Lawful_example = run-Lawful (pairs-IsBiMap ℕ Source) messages (omega arith)

handle_message-disconnected_example :
    ((i : ℕ)
      → AssignId.get_details i
          (handle_message
            (from_websocket 1 disconnected)
            (run (pairs ℕ Source) messages).0).0.to_local_id
        ≡ unless_from 1 (AssignId.get_details i (run (pairs ℕ Source) messages).0.to_local_id))
    × ((handle_message (from_websocket 1 disconnected) (run (pairs ℕ Source) messages).0).1
        ≡ removals
            (run (pairs ℕ Source) messages).0.connected_to_telemetry_core
            (ids_of 1 (AssignId.iter (run (pairs ℕ Source) messages).0.to_local_id)))
handle_message-disconnected_example =
    handle_message-disconnected (pairs-IsBiMap ℕ Source) 1 (run (pairs ℕ Source) messages).0
