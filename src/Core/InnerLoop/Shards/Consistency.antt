-- ===== src/Core/InnerLoop/Shards/Consistency.antt =====
-- backend/telemetry_core/src/aggregator/inner_loop.rs: the two-way map of node ids has exactly the nodes
-- of the state.
use substrate_telemetry.Prelude.{
  ℕ, ◌≡◌, refl, subst, sym, ap, ◌∙◌, inl, inr, true, is_some, Option, none, some, List, [], ◌∷◌,
  if_pos, if_neg, nat_key, if◌then◌else◌, arith, Bool-cases, Returns, Returns-bind, Returns-mono,
}
use substrate_telemetry.Common.BiMap.{BiMap, IsBiMap, without}
use substrate_telemetry.Common.InternalMessages.{IpAddr, ShardNodeId}
use substrate_telemetry.Common.NodeMessage.{Payload}
use substrate_telemetry.Common.NodeTypes.{BlockHash, NodeDetails}
use substrate_telemetry.Core.Chain.{Readings}
use substrate_telemetry.Core.ChainStats.{F64}
use substrate_telemetry.Core.InnerLoop.{ConnId}
use substrate_telemetry.Core.InnerLoop.Shards.{
  InnerLoop, Source, FromShardWebsocket, initialize, add, update, remove, disconnected, Outside,
  on_added, group, remove_nodes_and_broadcast_result, on_remove, on_update, handle_from_shard,
  ids_of, then_some,
}
use substrate_telemetry.Core.InnerLoop.Shards.Handling.{IsValid, with_state}
use substrate_telemetry.Core.InnerLoop.Shards.Removal.{
  node_id_key, same-path, same_refl, ite-same, member, flat, group-flat, Removed,
  remove_nodes-Removed,
}
use substrate_telemetry.Core.Node.{Floats}
use substrate_telemetry.Core.State
use substrate_telemetry.Core.State.{State, NodeId, AddNodeResult}
use substrate_telemetry.Core.State.Index as Index
use substrate_telemetry.Core.State.Presence.{stored, same, Alike, stored-chain}
use substrate_telemetry.Core.State.Nodes.{
  Told, denied, full, entered, add_node-Told, update_node-IsValid,
}
use substrate_telemetry.Shard.Aggregator.{source_key}

-- The source of an `Add` stands for no node yet.
abbrev pub IsNew :
    {bimap : BiMap NodeId Source} → (conn : ConnId) → FromShardWebsocket → InnerLoop bimap → Type 0
IsNew {bimap} conn (add local_id ip node genesis_hash) l =
    bimap.get_by_right (conn, local_id) l.node_ids ≡ none
IsNew conn _ l = Unit

module _ (f64 : F64) {bimap : BiMap NodeId Source} (laws : IsBiMap bimap) where
  -- A valid loop whose two-way map has an entry for each node of the state, and no other.
  pub record IsConsistent (l : InnerLoop bimap) : Type 0 where
    pub valid : IsValid f64 l
    pub known :
        (id : NodeId) → is_some (bimap.get_by_left id l.node_ids) ≡ stored l.feeds.node_state id

  -- Every node that has a source is grouped.
  pub grouped :
      (ids : List NodeId) (l : InnerLoop bimap)
      → (j : NodeId) → stored l.feeds.node_state j ≡ true
      → member j (flat (group ids l.feeds.node_state [])) ≡ member j ids
  grouped ids l j h =
      let chain = stored-chain l.feeds.node_state j h in
      ground (arith, group-flat j ids l.feeds.node_state [], chain)

  pub Removed-Consistent :
      (ids : List NodeId) (l l' : InnerLoop bimap)
      → IsConsistent l
      → Removed f64 laws (flat (group ids l.feeds.node_state [])) l l'
      → IsConsistent l'
  Removed-Consistent ids l l' h k = record {
    valid = k.valid;
    known = λ j. ground (arith, k.node_ids j, k.nodes j, h.known j);
  }

  remove_nodes-Consistent :
      (ids : List NodeId) (l : InnerLoop bimap)
      → IsConsistent l
      → Returns (remove_nodes_and_broadcast_result f64 ids l) (λ r. IsConsistent r.0)
  remove_nodes-Consistent ids l h =
      Returns-mono (remove_nodes_and_broadcast_result f64 ids l) _ _
        (remove_nodes-Removed f64 laws ids l h.valid) (λ r k. Removed-Consistent ids l r.0 h k)

  -- The node of a source is the only one that is taken with it.
  taken :
      (source : Source) (id j : NodeId) (m : bimap.Map)
      → bimap.get_by_right source m ≡ some id
      → (o : Option Source) → bimap.get_by_left j m ≡ o
      → without source o ≡ (if same id j then none else o)
  taken source id j m e none g = ground arith
  taken source id j m e (some d) g = elim (source_key.dec source d) [
    | yes p ↦
        let of_j : bimap.get_by_right source m ≡ some j =
          laws.to_right j source m (g ∙ ap some (sym p)) in
        let alike : id ≡ j = cc in
        if_pos (source_key.dec source d) p none (some d)
        ∙ ap (λ b. if b then none else some d)
            (sym (subst (λ k. same id k ≡ true) alike (same_refl id)))
    | no n ↦ elim (Bool-cases (same id j)) [
      | inl y ↦
          absurd (let alike = same-path id j y in let of_id = laws.to_left id source m e in n (cc))
      | inr f ↦
          if_neg (source_key.dec source d) n none (some d)
          ∙ ap (λ b. if b then none else some d) (sym f)
    ]
  ]

  -- A source that stands for no node takes none.
  untaken :
      (source : Source) (j : NodeId) (m : bimap.Map)
      → bimap.get_by_right source m ≡ none
      → (o : Option Source) → bimap.get_by_left j m ≡ o
      → without source o ≡ o
  untaken source j m e none g = refl
  untaken source j m e (some d) g = elim (source_key.dec source d) [
    | yes p ↦ absurd (
        let of_j : bimap.get_by_right source m ≡ some j =
          laws.to_right j source m (g ∙ ap some (sym p)) in
        cc)
    | no n ↦ if_neg (source_key.dec source d) n none (some d)
  ]

  -- A node that was added, under an Id that had none, for a source that is new.
  insert-known :
      (source : Source) (id j : NodeId) (m : bimap.Map)
      → bimap.get_by_right source m ≡ none
      → is_some (bimap.get_by_left j (bimap.insert id source m))
        ≡ (if same id j then true else is_some (bimap.get_by_left j m))
  insert-known source id j m e =
      ap is_some (
        laws.left-insert id j source m
        ∙ ite-same id j (some source) (without source (bimap.get_by_left j m))
        ∙ ap (λ o. if same id j then some source else o)
            (untaken source j m e (bimap.get_by_left j m) refl))
      ∙ ground arith

  on_added-Consistent :
      (floats : Floats) (now : ℕ) (details : NodeDetails) (r : State × AddNodeResult)
      (conn : ConnId) (local_id : ShardNodeId) (ip : IpAddr) (genesis_hash : BlockHash)
      (l : InnerLoop bimap)
      → IsConsistent l
      → bimap.get_by_right (conn, local_id) l.node_ids ≡ none
      → Told f64 floats now genesis_hash details l.feeds.node_state r
      → IsConsistent (on_added r.1 r.0 conn local_id ip genesis_hash l).0
  unfolding on_added
  on_added-Consistent floats now details _ conn local_id ip genesis_hash l h new (denied e) =
      record {
        valid = record { state = h.valid.state; feeds = with_state _ l.feeds h.valid.feeds };
        known = h.known;
      }
  on_added-Consistent floats now details _ conn local_id ip genesis_hash l h new
        (full s chain n i q v alike) =
      record {
        valid = record { state = v; feeds = with_state s l.feeds h.valid.feeds };
        known = λ j. h.known j ∙ sym (alike j);
      }
  on_added-Consistent floats now details _ conn local_id ip genesis_hash l h new
        (entered s report chain n i q v found genesis read node fresh others) =
      record {
        valid = record { state = v; feeds = with_state s l.feeds h.valid.feeds };
        known = λ j.
            insert-known (conn, local_id) report.id j l.node_ids new
            ∙ ap (λ b. if same report.id j then true else b) (h.known j)
            ∙ sym (others j);
      }

  on_remove-Consistent :
      (o : Option NodeId) (conn : ConnId) (local_id : ShardNodeId) (l : InnerLoop bimap)
      → IsConsistent l
      → bimap.get_by_right (conn, local_id) l.node_ids ≡ o
      → Returns (on_remove f64 o conn local_id l) (λ r. IsConsistent r.0)
  unfolding on_remove
  on_remove-Consistent none conn local_id l h e = h
  on_remove-Consistent (some id) conn local_id l h e =
      let cut : InnerLoop bimap = record l {
        node_ids = bimap.remove_by_right (conn, local_id) l.node_ids;
      } in
      Returns-mono (remove_nodes_and_broadcast_result f64 (id ∷ []) cut) _ _
        (remove_nodes-Removed f64 laws (id ∷ []) cut
          (record { state = h.valid.state; feeds = h.valid.feeds }))
        (λ r k. record {
          valid = k.valid;
          known = λ j.
              let left : bimap.get_by_left j cut.node_ids
                  ≡ (if same id j then none else bimap.get_by_left j l.node_ids) =
                laws.left-remove_by_right (conn, local_id) j l.node_ids
                ∙ taken (conn, local_id) id j l.node_ids e (bimap.get_by_left j l.node_ids) refl in
              ground (arith, k.node_ids j, k.nodes j, left, h.known j, grouped (id ∷ []) l j);
        })

  module _ (floats : Floats) where
    on_update-Consistent :
        (o : Option NodeId) (readings : Readings) (payload : Payload) (l : InnerLoop bimap)
        → IsConsistent l
        → Returns (on_update f64 floats o readings payload l) (λ r. IsConsistent r.0)
    unfolding on_update
    on_update-Consistent none readings payload l h = h
    on_update-Consistent (some id) readings payload l h =
        Returns-bind
          (State.update_node floats f64 readings id payload l.feeds.expose_node_details
            l.feeds.node_state)
          _ (λ r. Index.IsValid f64 r.0 × Alike l.feeds.node_state r.0) (λ r. IsConsistent r.0)
          (update_node-IsValid f64 floats readings id payload l.feeds.expose_node_details
            l.feeds.node_state h.valid.state)
          (λ r k. record {
            valid = record { state = k.0; feeds = with_state r.0 l.feeds h.valid.feeds };
            known = λ j. h.known j ∙ sym (k.1 j);
          })

    -- A message of a shard, if it adds no node under an id that stands for one already, does not panic
    -- a loop whose two-way map has an entry for exactly the nodes of its state, and this stays so.
    pub handle_from_shard-Consistent :
        (outside : Outside) (conn : ConnId) (message : FromShardWebsocket) (l : InnerLoop bimap)
        → IsConsistent l
        → IsNew conn message l
        → Returns (handle_from_shard f64 floats outside conn message l) (λ r. IsConsistent r.0)
    unfolding handle_from_shard
    handle_from_shard-Consistent outside conn (initialize channel) l h new = record {
      valid = record { state = h.valid.state; feeds = h.valid.feeds };
      known = h.known;
    }
    handle_from_shard-Consistent outside conn (add local_id ip node genesis_hash) l h new =
        let details = record node {
          ip = then_some l.feeds.expose_node_details (outside.show ip);
        } in
        Returns-bind
          (State.add_node floats f64 outside.readings.now outside.readings.instant genesis_hash
            details l.feeds.node_state)
          _ (Told f64 floats outside.readings.now genesis_hash details l.feeds.node_state)
          (λ r. IsConsistent r.0)
          (add_node-Told f64 floats outside.readings.now outside.readings.instant genesis_hash
            details l.feeds.node_state h.valid.state)
          (λ r k.
            on_added-Consistent floats outside.readings.now details r conn local_id ip genesis_hash
              l h new k)
    handle_from_shard-Consistent outside conn (remove local_id) l h new =
        on_remove-Consistent (bimap.get_by_right (conn, local_id) l.node_ids) conn local_id l h refl
    handle_from_shard-Consistent outside conn (update local_id payload) l h new =
        on_update-Consistent (bimap.get_by_right (conn, local_id) l.node_ids) outside.readings
          payload l h
    handle_from_shard-Consistent outside conn disconnected l h new =
        remove_nodes-Consistent (ids_of conn (bimap.iter l.node_ids)) _ (record {
          valid = record { state = h.valid.state; feeds = h.valid.feeds };
          known = h.known;
        })
