-- ===== src/Core/InnerLoop/Shards/Disconnection.antt =====
-- backend/telemetry_core/src/aggregator/inner_loop.rs: what is left of a shard that has disconnected.
use substrate_telemetry.Prelude.{
  ◌≡◌, refl, sym, ap, ◌∙◌, inl, inr, Bool, false, is_some, Option, none, some, [], ◌∷◌, ite,
  nat_key, ◌==◌, if◌then◌else◌, arith, Option-cases, Bool-cases, Returns, Returns-mono,
}
use substrate_telemetry.Prelude.HashMap
use substrate_telemetry.Prelude.HashMap.{HashMap}
use substrate_telemetry.Common.BiMap.{BiMap, IsBiMap}
use substrate_telemetry.Core.ChainStats.{F64}
use substrate_telemetry.Core.InnerLoop.{ConnId}
use substrate_telemetry.Core.InnerLoop.Shards.{
  InnerLoop, Source, disconnected, Outside, group, remove_nodes_and_broadcast_result,
  handle_from_shard, ids_of,
}
use substrate_telemetry.Core.InnerLoop.Shards.Removal.{
  node_id_key, same-path, ite-same, member, flat, Removed, remove_nodes-Removed,
}
use substrate_telemetry.Core.InnerLoop.Shards.Consistency.{
  IsConsistent, grouped, Removed-Consistent,
}
use substrate_telemetry.Core.Node.{Floats}
use substrate_telemetry.Core.State.{NodeId}
use substrate_telemetry.Core.State.Presence.{stored, same}
use substrate_telemetry.Shard.Aggregator.{source_key}

-- The source of a node, unless it is of the shard.
abbrev pub unless_from : ConnId → Option Source → Option Source
unless_from conn none = none
unless_from conn (some source) = if conn == source.0 then none else some source

abbrev is_from : ConnId → Option Source → Bool
is_from conn none = false
is_from conn (some source) = conn == source.0

-- The ids of a shard are the nodes whose source is the shard.
ids_of-member :
    (conn : ConnId) (j : NodeId) (es : HashMap NodeId Source)
    → HashMap.IsMap es
    → member j (ids_of conn es) ≡ is_from conn (HashMap.get j es)
unfolding HashMap.get ids_of
ids_of-member conn j [] u = refl
ids_of-member conn j (e ∷ es) u =
    let rest = ids_of-member conn j es u.1 in
    let found : ite (node_id_key.dec e.0 j) (some e.1) (HashMap.get j es)
        ≡ (if same e.0 j then some e.1 else HashMap.get j es) =
      ite-same e.0 j (some e.1) (HashMap.get j es) in
    elim (Bool-cases (same e.0 j)) [
      | inl y ↦
          let none_left : HashMap.get j es ≡ none =
            ap (λ i. HashMap.get i es) (sym (same-path e.0 j y)) ∙ u.0 in
          ground (arith, rest, found, none_left, y)
      | inr n ↦ ground (arith, rest, found, n)
    ]

module _ (f64 : F64) {bimap : BiMap NodeId Source} (laws : IsBiMap bimap) where
  left_over :
      (conn : ConnId) (l l' : InnerLoop bimap)
      → IsConsistent f64 laws l
      → Removed f64 laws
          (flat (group (ids_of conn (bimap.iter l.node_ids)) l.feeds.node_state []))
          l
          l'
      → (j : NodeId)
      → bimap.get_by_left j l'.node_ids ≡ unless_from conn (bimap.get_by_left j l.node_ids)
  left_over conn l l' h k j =
      let ids = ids_of conn (bimap.iter l.node_ids) in
      let listed : member j ids ≡ is_from conn (bimap.get_by_left j l.node_ids) =
        ids_of-member conn j (bimap.iter l.node_ids) (laws.iter-IsMap l.node_ids)
        ∙ ap (is_from conn) (laws.get-iter j l.node_ids) in
      let group_of = grouped f64 laws ids l j in
      elim (Option-cases (bimap.get_by_left j l.node_ids)) [
        | inl e ↦ ground (arith, k.node_ids j, e)
        | inr (source, e) ↦ ground (arith, k.node_ids j, e, group_of, listed, h.known j)
      ]

  module _ (floats : Floats) where
    -- From a loop whose two-way map and state have the same nodes and which is valid, the message that a
    -- shard has disconnected does not panic. Afterwards no node of the shard is left, neither in the
    -- map nor in the state of the chains, and all the nodes of other shards are there as before.
    pub handle_from_shard-disconnected :
        (outside : Outside) (conn : ConnId) (l : InnerLoop bimap)
        → IsConsistent f64 laws l
        → Returns (handle_from_shard f64 floats outside conn disconnected l) (λ r.
          ((j : NodeId)
            → bimap.get_by_left j r.0.node_ids ≡ unless_from conn (bimap.get_by_left j l.node_ids))
          × ((j : NodeId)
              → stored r.0.feeds.node_state j
                ≡ is_some (unless_from conn (bimap.get_by_left j l.node_ids))))
    unfolding handle_from_shard
    handle_from_shard-disconnected outside conn l h =
        let ids = ids_of conn (bimap.iter l.node_ids) in
        let closed : InnerLoop bimap = record l {
          shard_channels = HashMap.remove conn l.shard_channels;
        } in
        let consistent : IsConsistent f64 laws closed = record {
          valid = record { state = h.valid.state; feeds = h.valid.feeds };
          known = h.known;
        } in
        Returns-mono (remove_nodes_and_broadcast_result f64 ids closed) _ _
          (remove_nodes-Removed f64 laws ids closed consistent.valid)
          (λ r k.
            let w = Removed-Consistent f64 laws ids closed r.0 consistent k in
            let left = left_over conn closed r.0 consistent k in
            (left, λ j. sym (w.known j) ∙ ap is_some (left j)))
