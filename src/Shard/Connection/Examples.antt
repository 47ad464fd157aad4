-- ===== src/Shard/Connection/Examples.antt =====
-- backend/telemetry_shard/src/main.rs, on concrete input: a reader that takes the first byte for the
-- id and every message for an update, but for those with a second byte.
use substrate_telemetry.Prelude.{
  ℕ, ◌≤◌, ◌+◌, ◌≡◌, refl, false, Option, none, some, List, [], ◌∷◌, arith, Text, length, ok,
  Returns, saturating_add, nat_key, ℕ_discrete,
}
use substrate_telemetry.Common.InternalMessages.{v4}
use substrate_telemetry.Shard.JsonMessage.NodeMessage.{
  NodeMessage, v2, system_connected, afg_authority_set,
}
use substrate_telemetry.Shard.JsonMessage.NodeMessage.Examples.{old_node}
use substrate_telemetry.Shard.JsonMessage.Hash.Examples.{dummy}
use substrate_telemetry.Common.RollingTotal as Rolling
use substrate_telemetry.Shard.Aggregator.{initialize}
use substrate_telemetry.Shard.BlockedAddrs
use substrate_telemetry.Shard.BlockedAddrs.{blocked_reason}
use substrate_telemetry.Shard.Connection.{
  Settings, Event, tick, received, start, handle, too_much_traffic,
}
use substrate_telemetry.Prelude.HashMap
use substrate_telemetry.Shard.Connection.Expiry.{recent, is_stale, removes, on_tick-recent}
use substrate_telemetry.Shard.Connection.{Connection, on_tick}
use substrate_telemetry.Shard.Connection.Handling.{Conforms, run-Conforms, handle-over}
use substrate_telemetry.Shard.Connection.Protocol.{run}

read : Text → Option NodeMessage
read [] = none
read (id ∷ []) = some (v2 id (afg_authority_set (record { authority_id = [] })))
read (id ∷ _ ∷ _) =
    some (v2 id (system_connected (record { genesis_hash = dummy; node = old_node })))

abbrev settings : Settings
settings = record {
  real_addr = v4 1;
  max_nodes_per_connection = 2;
  bytes_per_second = 100;
  stale_node_timeout = 60;
  from_slice = read;
}

abbrev events : List Event
events =
    received 1 (some (5 ∷ 0 ∷ []))
    ∷ received 2 (some (5 ∷ []))
    ∷ received 3 (some (6 ∷ []))
    ∷ tick 70
    ∷ received 71 none
    ∷ []

run-Conforms_example :
    Returns
      (run settings events (start 0 (BlockedAddrs.new 60)) (initialize 9 ∷ []))
      (Conforms settings.max_nodes_per_connection)
run-Conforms_example = run-Conforms settings events 0 9 (BlockedAddrs.new 60)

abbrev strict : Settings
strict = record settings { bytes_per_second = 0 }

abbrev ten_bytes : Text
ten_bytes = 5 ∷ 5 ∷ 5 ∷ 5 ∷ 5 ∷ 5 ∷ 5 ∷ 5 ∷ 5 ∷ 5 ∷ []

abbrev counted : Rolling.RollingTotal
counted = record {
  window_size_multiple = 10;
  granularity = 1000000000;
  averages = (0, 10) ∷ [];
  total = 10;
}

ten_bytes-counted :
    Rolling.push 1 (length ten_bytes) (start 0 (BlockedAddrs.new 60)).rolling_total_bytes
    ≡ ok counted
unfolding start Rolling.push Rolling.push_since Rolling.back Rolling.add_to_last Rolling.start
    Rolling.new Rolling.granularity Rolling.window_size_multiple saturating_add
ten_bytes-counted = refl

handle-over_example :
    Returns (handle strict (received 1 (some ten_bytes)) (start 0 (BlockedAddrs.new 60))) (λ turn.
      (turn.1 ≡ ([], false))
      × ((later : ℕ)
          → later ≤ 1 + (start 0 (BlockedAddrs.new 60)).block_list.block_duration
          → (blocked_reason later strict.real_addr turn.0.block_list).1 ≡ some too_much_traffic))
unfolding Rolling.total
handle-over_example =
    handle-over strict 1 ten_bytes (start 0 (BlockedAddrs.new 60)) counted ten_bytes-counted
      (omega arith)

-- The id 5 was last seen at 1, and the id 6 at 50.
abbrev two_ids : Connection
two_ids = record (start 0 (BlockedAddrs.new 60)) { allowed_message_ids = (5, 1) ∷ (6, 50) ∷ [] }

on_tick-recent_example :
    (HashMap.get 5 (on_tick settings 70 two_ids).0.allowed_message_ids
      ≡ recent 60 70 (HashMap.get 5 two_ids.allowed_message_ids))
    × (removes 5 (on_tick settings 70 two_ids).1.0
        ≡ is_stale 60 70 (HashMap.get 5 two_ids.allowed_message_ids))
unfolding HashMap.get ℕ_discrete
on_tick-recent_example = on_tick-recent settings 70 5 two_ids (refl, (refl, tt))
