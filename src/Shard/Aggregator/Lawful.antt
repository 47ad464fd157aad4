-- ===== src/Shard/Aggregator/Lawful.antt =====
-- backend/telemetry_shard/src/aggregator.rs: every trace of the loop is lawful.
use substrate_telemetry.Prelude.{
  ℕ, ◌+◌, ◌≤◌, ◌<◌, ◌≡◌, refl, Bool, true, false, Option, none, some, List, [], ◌∷◌, nat_key, arith,
  length, add64_small, u64_mod,
}
use substrate_telemetry.Prelude.HashMap
use substrate_telemetry.Prelude.HashMap.{HashMap, get-insert}
use substrate_telemetry.Common.AssignId
use substrate_telemetry.Common.BiMap.{BiMap, IsBiMap}
use substrate_telemetry.Common.InternalMessages.{mute, ShardNodeId, IpAddr}
use substrate_telemetry.Common.NodeTypes.{BlockHash, NodeDetails}
use substrate_telemetry.Shard.Aggregator.{
  Aggregator, ConnId, FromWebsocket, Source, source_key, ToAggregator, ids_of, on_connected, on_add,
  on_remove, on_disconnected, on_websocket, remove_local_id, remove_local_ids, initialize, add,
  update, remove, disconnected, connected_to_telemetry_core, disconnected_from_telemetry_core,
  from_websocket, from_telemetry_core, handle_message, new,
}
use substrate_telemetry.Shard.Aggregator.Traces.{Trace, note_message, note_effects, run, Lawful}
use substrate_telemetry.Shard.Aggregator.Invariant.{
  Tracks, new-Tracks, on_connected-Tracks, on_add-Tracks, on_update-Tracks, on_remove-Tracks,
  on_disconnected-Tracks,
}

module _ {bimap : BiMap ℕ Source} where
  -- The counter moves with an `Add` only.
  current_id-remove_local_ids :
      (ids : List ShardNodeId) (a : Aggregator bimap)
      → (remove_local_ids ids a).0.to_local_id.current_id ≡ a.to_local_id.current_id
  unfolding remove_local_ids remove_local_id AssignId.remove_by_id
  current_id-remove_local_ids [] a = refl
  current_id-remove_local_ids (id ∷ ids) a =
      current_id-remove_local_ids ids (remove_local_id id a).0

  current_id-on_remove :
      (o : Option ℕ) (a : Aggregator bimap)
      → (on_remove o a).0.to_local_id.current_id ≡ a.to_local_id.current_id
  unfolding on_remove remove_local_id AssignId.remove_by_id
  current_id-on_remove none a = refl
  current_id-on_remove (some id) a = refl

  current_id-on_add :
      (b : Bool) (conn : ConnId) (message_id : ℕ) (ip : IpAddr) (node : NodeDetails)
      (hash : BlockHash) (a : Aggregator bimap)
      → a.to_local_id.current_id + 1 < u64_mod
      → (on_add b conn message_id ip node hash a).0.to_local_id.current_id
        ≤ a.to_local_id.current_id + 1
  unfolding on_add AssignId.assign_id
  current_id-on_add false conn message_id ip node hash a h = omega arith
  current_id-on_add true conn message_id ip node hash a h =
      omega (arith, add64_small a.to_local_id.current_id 1 h)

  current_id-handle_message :
      (message : ToAggregator) (a : Aggregator bimap)
      → a.to_local_id.current_id + 1 < u64_mod
      → (handle_message message a).0.to_local_id.current_id ≤ a.to_local_id.current_id + 1
  unfolding handle_message on_websocket on_connected on_disconnected AssignId.clear
  current_id-handle_message connected_to_telemetry_core a h = omega arith
  current_id-handle_message disconnected_from_telemetry_core a h = omega arith
  current_id-handle_message (from_telemetry_core (mute id reason)) a h = omega arith
  current_id-handle_message (from_websocket conn (initialize channel)) a h = omega arith
  current_id-handle_message (from_websocket conn (add message_id ip node hash)) a h =
      current_id-on_add a.connected_to_telemetry_core conn message_id ip node hash a h
  current_id-handle_message (from_websocket conn (update message_id payload)) a h = omega arith
  current_id-handle_message (from_websocket conn (remove message_id)) a h =
      rw (current_id-on_remove (AssignId.get_id (conn, message_id) a.to_local_id) a) (omega arith)
  current_id-handle_message (from_websocket conn disconnected) a h =
      rw
        (current_id-remove_local_ids (ids_of conn (AssignId.iter a.to_local_id))
          (record a { close_connections = HashMap.remove conn a.close_connections }))
        (omega arith)

current_id-run :
    (bimap : BiMap ℕ Source) (messages : List ToAggregator)
    → length messages < u64_mod
    → (run bimap messages).0.to_local_id.current_id ≤ length messages
unfolding run new AssignId.new
current_id-run bimap [] h = omega arith
current_id-run bimap (message ∷ messages) h =
    let before = current_id-run bimap messages (omega arith) in
    omega (
      arith,
      before,
      current_id-handle_message message (run bimap messages).0 (omega (arith, before, h)),
    )

module _ {bimap : BiMap ℕ Source} (laws : IsBiMap bimap) where
  on_websocket-Tracks :
      (conn : ConnId) (message : FromWebsocket) (a : Aggregator bimap) (t : Trace)
      → Tracks laws a t
      → a.to_local_id.current_id + 1 < u64_mod
      → Tracks laws (on_websocket conn message a).0 (note_effects (on_websocket conn message a).1 t)
  unfolding on_websocket
  on_websocket-Tracks conn (initialize channel) a t h small = record {
    lawful = h.lawful;
    connected = h.connected;
    fresh = h.fresh;
    below = h.below;
    live = h.live;
    muted = h.muted;
    muted_fresh = h.muted_fresh;
  }
  on_websocket-Tracks conn (add message_id ip node hash) a t h small =
      on_add-Tracks laws _ conn message_id ip node hash a t h refl small
  on_websocket-Tracks conn (update message_id payload) a t h small =
      on_update-Tracks laws _ conn message_id payload a t h refl _ refl
  on_websocket-Tracks conn (remove message_id) a t h small =
      on_remove-Tracks laws conn message_id a t h _ refl
  on_websocket-Tracks conn disconnected a t h small = on_disconnected-Tracks laws conn a t h

  handle_message-Tracks :
      (message : ToAggregator) (a : Aggregator bimap) (t : Trace)
      → Tracks laws a t
      → a.to_local_id.current_id + 1 < u64_mod
      → Tracks laws
          (handle_message message a).0
          (note_effects (handle_message message a).1 (note_message message t))
  unfolding handle_message
  handle_message-Tracks connected_to_telemetry_core a t h small = on_connected-Tracks laws a t h
  handle_message-Tracks disconnected_from_telemetry_core a t h small = record {
    lawful = (tt, h.lawful);
    connected = refl;
    fresh = h.fresh;
    below = h.below;
    live = h.live;
    muted = h.muted;
    muted_fresh = h.muted_fresh;
  }
  handle_message-Tracks (from_websocket conn message) a t h small =
      on_websocket-Tracks conn message a t h small
  handle_message-Tracks (from_telemetry_core (mute id reason)) a t h small = record {
    lawful = (tt, h.lawful);
    connected = h.connected;
    fresh = h.fresh;
    below = h.below;
    live = h.live;
    muted = λ i d e f. ground (arith, get-insert id i tt a.muted, h.muted i d e, f);
    muted_fresh = λ i k f. ground (arith, get-insert id i tt a.muted, h.muted_fresh i k, f);
  }

  run-Tracks :
      (messages : List ToAggregator)
      → length messages < u64_mod
      → Tracks laws (run bimap messages).0 (run bimap messages).1
  unfolding run
  run-Tracks [] h = new-Tracks laws
  run-Tracks (message ∷ messages) h =
      let (a, t) = run bimap messages in
      handle_message-Tracks message a t (run-Tracks messages (omega arith))
        (omega (arith, current_id-run bimap messages (omega arith), h))

  -- Whatever messages the loop handles from its start, in whatever order, if they are fewer than
  -- 2^64, what it sends is lawful: it sends nothing before the core connects or while the core is
  -- away, adds only ids above all it ever added, updates and drops only ids that were added since
  -- the core last connected and not dropped since, and does not update an id that the core muted.
  pub run-Lawful :
      (messages : List ToAggregator) → length messages < u64_mod → Lawful (run bimap messages).1
  run-Lawful messages h = (run-Tracks messages h).lawful
