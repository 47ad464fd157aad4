-- ===== src/Shard/Aggregator/Disconnection.antt =====
-- backend/telemetry_shard/src/aggregator.rs: what a lost connection to a node leaves behind.
use substrate_telemetry.Prelude.{
  ℕ, ◌≡◌, refl, sym, ap, ◌∙◌, ite, Bool, true, false, if◌then◌else◌, Option, none, some, List, [],
  ◌∷◌, ◌++◌, nat_key, ℕ_discrete, arith,
}
use substrate_telemetry.Prelude.HashMap
use substrate_telemetry.Common.AssignId
use substrate_telemetry.Common.BiMap.{BiMap, IsBiMap}
use substrate_telemetry.Common.InternalMessages.{remove_node, ShardNodeId}
use substrate_telemetry.Shard.Aggregator.{
  Aggregator, ConnId, Effect, Source, source_key, send_if, ids_of, on_disconnected, on_websocket,
  remove_local_id, remove_local_ids, disconnected, from_websocket, handle_message,
}

-- The source of an id, unless its connection is the lost one.
abbrev pub unless_from : ConnId → Option Source → Option Source
unless_from conn none = none
unless_from conn (some d) = ite (ℕ_discrete conn d.0) none (some d)

listed : ShardNodeId → List ShardNodeId → Bool
listed i [] = false
listed i (j ∷ js) = ite (ℕ_discrete j i) true (listed i js)

-- One `RemoveNode` for each id, while the core is connected.
abbrev pub removals : Bool → List ShardNodeId → List Effect
removals c [] = []
removals c (id ∷ ids) = send_if c (remove_node id) ++ removals c ids

listed-absent :
    (conn : ConnId) (i : ℕ) (es : List (ShardNodeId × Source))
    → HashMap.get i es ≡ none
    → listed i (ids_of conn es) ≡ false
unfolding listed ids_of HashMap.get
listed-absent conn i [] h = refl
listed-absent conn i (e ∷ es) h = ground (arith, listed-absent conn i es)

-- The source that an entry has, if its id is listed.
listed-ids_of :
    (conn : ConnId) (i : ℕ) (es : List (ShardNodeId × Source))
    → HashMap.IsMap es
    → (if listed i (ids_of conn es) then none else HashMap.get i es)
      ≡ unless_from conn (HashMap.get i es)
unfolding listed ids_of HashMap.get
listed-ids_of conn i [] u = refl
listed-ids_of conn i (e ∷ es) u =
    ground (arith, listed-ids_of conn i es u.1, listed-absent conn i es, u.0)

module _ {bimap : BiMap ℕ Source} (laws : IsBiMap bimap) where
  left-remove_local_ids :
      (i : ℕ) (ids : List ShardNodeId) (a : Aggregator bimap)
      → bimap.get_by_left i (remove_local_ids ids a).0.to_local_id.mapping
        ≡ (if listed i ids then none else bimap.get_by_left i a.to_local_id.mapping)
  unfolding remove_local_ids remove_local_id listed AssignId.remove_by_id
  left-remove_local_ids i [] a = refl
  left-remove_local_ids i (id ∷ ids) a = ground (
    arith,
    left-remove_local_ids i ids (remove_local_id id a).0,
    laws.left-remove_by_left id i a.to_local_id.mapping,
  )

  effects-remove_local_ids :
      (ids : List ShardNodeId) (a : Aggregator bimap)
      → (remove_local_ids ids a).1 ≡ removals a.connected_to_telemetry_core ids
  unfolding remove_local_ids remove_local_id
  effects-remove_local_ids [] a = refl
  effects-remove_local_ids (id ∷ ids) a =
      ap (λ es. send_if a.connected_to_telemetry_core (remove_node id) ++ es)
        (effects-remove_local_ids ids (remove_local_id id a).0)

  -- A lost connection takes exactly its own ids out of use, each other id keeps its source, and the
  -- core, if it is connected, hears of each id of the connection once.
  pub handle_message-disconnected :
      (conn : ConnId) (a : Aggregator bimap)
      → ((i : ℕ)
          → AssignId.get_details i
              (handle_message (from_websocket conn disconnected) a).0.to_local_id
            ≡ unless_from conn (AssignId.get_details i a.to_local_id))
        × ((handle_message (from_websocket conn disconnected) a).1
            ≡ removals a.connected_to_telemetry_core (ids_of conn (AssignId.iter a.to_local_id)))
  unfolding handle_message on_websocket on_disconnected AssignId.get_details AssignId.iter
  handle_message-disconnected conn a =
      let entries = bimap.iter a.to_local_id.mapping in
      (
        λ i.
            left-remove_local_ids i (ids_of conn entries) _
            ∙ ap (λ o. if listed i (ids_of conn entries) then none else o)
                (sym (laws.get-iter i a.to_local_id.mapping))
            ∙ listed-ids_of conn i entries (laws.iter-IsMap a.to_local_id.mapping)
            ∙ ap (unless_from conn) (laws.get-iter i a.to_local_id.mapping),
        effects-remove_local_ids (ids_of conn entries) _,
      )
