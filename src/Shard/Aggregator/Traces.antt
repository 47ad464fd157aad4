-- ===== src/Shard/Aggregator/Traces.antt =====
-- backend/telemetry_shard/src/aggregator.rs: what the telemetry core may expect to hear from a
-- shard, stated on the trace of what was said, with no map of ids.
use substrate_telemetry.Prelude.{
  ℕ, zero, suc, ◌≤◌, ◌≡◌, ite, Bool, true, false, List, [], ◌∷◌, ℕ_discrete,
}
use substrate_telemetry.Common.BiMap.{BiMap}
use substrate_telemetry.Common.InternalMessages.{
  add_node, update_node, remove_node, mute, ShardNodeId,
}
use substrate_telemetry.Shard.Aggregator.{
  Aggregator, Effect, Source, ToAggregator, close, send, connected_to_telemetry_core,
  disconnected_from_telemetry_core, from_websocket, from_telemetry_core, handle_message, new,
}

pub data Event : Type 0 where
  online offline : Event
  silenced added updated dropped : ShardNodeId → Event

-- What has been said so far, the newest first.
abbrev pub Trace : Type 0
Trace = List Event

-- What a message says about the core.
abbrev pub note_message : ToAggregator → Trace → Trace
note_message connected_to_telemetry_core t = online ∷ t
note_message disconnected_from_telemetry_core t = offline ∷ t
note_message (from_websocket conn message) t = t
note_message (from_telemetry_core (mute id reason)) t = silenced id ∷ t

abbrev pub note_effect : Effect → Trace → Trace
note_effect (close channel) t = t
note_effect (send (add_node ip node id genesis_hash)) t = added id ∷ t
note_effect (send (update_node id payload)) t = updated id ∷ t
note_effect (send (remove_node id)) t = dropped id ∷ t

abbrev pub note_effects : List Effect → Trace → Trace
note_effects [] t = t
note_effects (e ∷ es) t = note_effects es (note_effect e t)

-- The state and the trace after some messages, the newest message first.
unfoldable pub run : (bimap : BiMap ℕ Source) → List ToAggregator → Aggregator bimap × Trace
unfolding new handle_message
run bimap [] = (new bimap, [])
run bimap (message ∷ messages) =
    let (a, t) = run bimap messages in
    let (after, effects) = handle_message message a in
    (after, note_effects effects (note_message message t))

abbrev pub is_online : Trace → Bool
is_online [] = false
is_online (online ∷ t) = true
is_online (offline ∷ t) = false
is_online (_ ∷ t) = is_online t

-- Above every id that was added, of any connection to the core.
abbrev pub next_id : Trace → ℕ
next_id [] = zero
next_id (added id ∷ t) = suc id
next_id (_ ∷ t) = next_id t

-- Added since the core last connected, and not dropped since.
abbrev pub is_live : ShardNodeId → Trace → Bool
is_live id [] = false
is_live id (online ∷ t) = false
is_live id (added j ∷ t) = ite (ℕ_discrete j id) true (is_live id t)
is_live id (dropped j ∷ t) = ite (ℕ_discrete j id) false (is_live id t)
is_live id (_ ∷ t) = is_live id t

-- Silenced by the core since it last connected.
abbrev pub is_muted : ShardNodeId → Trace → Bool
is_muted id [] = false
is_muted id (online ∷ t) = false
is_muted id (silenced j ∷ t) = ite (ℕ_discrete j id) true (is_muted id t)
is_muted id (_ ∷ t) = is_muted id t

-- What may be said after a trace: nothing while the core is away; only new ids are added; only
-- live ids are updated or dropped, and muted ones are not updated.
abbrev pub Allowed : Event → Trace → Type 0
Allowed (added id) t = (is_online t ≡ true) × (next_id t ≤ id)
Allowed (updated id) t = (is_online t ≡ true) × ((is_live id t ≡ true) × (is_muted id t ≡ false))
Allowed (dropped id) t = (is_online t ≡ true) × (is_live id t ≡ true)
Allowed _ t = Unit

abbrev pub Lawful : Trace → Type 0
Lawful [] = Unit
Lawful (e ∷ t) = Allowed e t × Lawful t
