-- ===== src/Core/InnerLoop/Shards/Removal.antt =====
-- backend/telemetry_core/src/aggregator/inner_loop.rs: what `remove_nodes_and_broadcast_result` takes from
-- the two-way map and from the state.
use substrate_telemetry.Prelude.{
  ◌≡◌, refl, subst, sym, ap, ◌∙◌, inl, inr, Bool, true, false, ◌&&◌, ◌||◌, is_some, Option, none,
  some, List, [], ◌∷◌, ◌++◌, ite, if_pos, if_neg, Key, nat_key, if◌then◌else◌, arith, Bool-cases,
  ℕ_discrete, Returns, Returns-bind,
}
use substrate_telemetry.Prelude.HashMap
use substrate_telemetry.Prelude.HashMap.{HashMap}
use substrate_telemetry.Common.BiMap.{BiMap, IsBiMap}
use substrate_telemetry.Common.NodeTypes.{BlockHash}
use substrate_telemetry.Core.Chain.{Chain}
use substrate_telemetry.Core.ChainStats.{F64}
use substrate_telemetry.Core.InnerLoop.Shards.{
  InnerLoop, Source, add_to_group, group, push_id, remove_node, remove_group, remove_groups,
  remove_nodes_and_broadcast_result,
}
use substrate_telemetry.Core.InnerLoop.Shards.Handling.{IsValid, with_state}
use substrate_telemetry.Core.State
use substrate_telemetry.Core.State.{State, NodeId, get_chain_by_node_id}
use substrate_telemetry.Core.State.Index as Index
use substrate_telemetry.Core.State.Presence.{stored, same, Without}
use substrate_telemetry.Core.State.Nodes as StateNodes
use substrate_telemetry.Shard.Aggregator.{source_key}

unfoldable pub NodeId-discrete : Discrete NodeId
NodeId-discrete = hlevel ℕ_discrete

instance unfoldable pub node_id_key : Key NodeId
unfolding NodeId-discrete
node_id_key = record { dec = NodeId-discrete }

NodeId-path : (i j : NodeId) → i.chain_id ≡ j.chain_id → i.chain_node_id ≡ j.chain_node_id → i ≡ j
NodeId-path i j p q =
    ap (λ n. record { chain_id = n; chain_node_id = i.chain_node_id }) p
    ∙ ap (λ n. record { chain_id = j.chain_id; chain_node_id = n }) q

pub same_refl : (i : NodeId) → same i i ≡ true
same_refl i = ground arith

pub same-path : (i j : NodeId) → same i j ≡ true → i ≡ j
same-path i j e = NodeId-path i j (ground (arith, e)) (ground (arith, e))

-- The keys are compared by their two numbers.
pub ite-same :
    {C : Type 0} (i j : NodeId) (x y : C)
    → ite (node_id_key.dec i j) x y ≡ (if same i j then x else y)
ite-same {C} i j x y = elim (node_id_key.dec i j) [
  | yes p ↦
      if_pos (node_id_key.dec i j) p x y
      ∙ ap (λ b. if b then x else y) (sym (subst (λ k. same i k ≡ true) p (same_refl i)))
  | no n ↦ elim (Bool-cases (same i j)) [
    | inl e ↦ absurd (n (same-path i j e))
    | inr e ↦ if_neg (node_id_key.dec i j) n x y ∙ ap (λ b. if b then x else y) (sym e)
  ]
]

abbrev pub member : NodeId → List NodeId → Bool
member j [] = false
member j (i ∷ is) = same i j || member j is

pub member-append :
    (j : NodeId) (is js : List NodeId) → member j (is ++ js) ≡ (member j is || member j js)
member-append j [] js = refl
member-append j (i ∷ is) js = ground (arith, member-append j is js)

-- All the nodes of some groups.
abbrev pub flat : HashMap BlockHash (List NodeId) → List NodeId
flat [] = []
flat (e ∷ es) = e.1 ++ flat es

insert-flat :
    (id j : NodeId) (g : BlockHash) (groups : HashMap BlockHash (List NodeId))
    → member j (flat (HashMap.insert g (push_id id (HashMap.get g groups)) groups))
      ≡ (member j (flat groups) || same id j)
unfolding HashMap.insert HashMap.get push_id
insert-flat id j g [] = ground arith
insert-flat id j g (e ∷ es) = ground (
  arith,
  insert-flat id j g es,
  member-append j e.1 (flat es),
  member-append j (e.1 ++ id ∷ []) (flat es),
  member-append j e.1 (id ∷ []),
  member-append j e.1 (flat (HashMap.insert g (push_id id (HashMap.get g es)) es)),
)

add_to_group-flat :
    (id j : NodeId) (o : Option Chain) (groups : HashMap BlockHash (List NodeId))
    → member j (flat (add_to_group id o groups))
      ≡ (member j (flat groups) || (same id j && is_some o))
unfolding add_to_group
add_to_group-flat id j none groups = ground arith
add_to_group-flat id j (some chain) groups =
    insert-flat id j chain.genesis_hash groups ∙ ground arith

-- The nodes that are grouped are those that have a chain.
pub group-flat :
    (j : NodeId) (ids : List NodeId) (s : State) (groups : HashMap BlockHash (List NodeId))
    → member j (flat (group ids s groups))
      ≡ (member j (flat groups) || (member j ids && is_some (get_chain_by_node_id s j)))
unfolding group
group-flat j [] s groups = ground arith
group-flat j (id ∷ ids) s groups =
    let rest = group-flat j ids s (add_to_group id (get_chain_by_node_id s id) groups) in
    let first = add_to_group-flat id j (get_chain_by_node_id s id) groups in
    elim (Bool-cases (same id j)) [
      | inl e ↦
          let alike : get_chain_by_node_id s id ≡ get_chain_by_node_id s j =
            ap (get_chain_by_node_id s) (same-path id j e) in
          ground (arith, rest, first, alike, e)
      | inr e ↦ ground (arith, rest, first, e)
    ]

module _ (f64 : F64) {bimap : BiMap NodeId Source} (laws : IsBiMap bimap) where
  -- The state and the two-way map have lost some nodes, and no others.
  pub record Removed (ids : List NodeId) (l l' : InnerLoop bimap) : Type 0 where
    pub valid : IsValid f64 l'
    pub node_ids :
        (j : NodeId)
        → bimap.get_by_left j l'.node_ids
          ≡ (if member j ids then none else bimap.get_by_left j l.node_ids)
    pub nodes :
        (j : NodeId)
        → stored l'.feeds.node_state j
          ≡ (if member j ids then false else stored l.feeds.node_state j)

  none-Removed : (l : InnerLoop bimap) → IsValid f64 l → Removed [] l l
  none-Removed l h = record { valid = h; node_ids = λ j. refl; nodes = λ j. refl }

  Removed-trans :
      (is js : List NodeId) (l l' l'' : InnerLoop bimap)
      → Removed is l l'
      → Removed js l' l''
      → Removed (is ++ js) l l''
  Removed-trans is js l l' l'' h k = record {
    valid = k.valid;
    node_ids = λ j. ground (arith, member-append j is js, h.node_ids j, k.node_ids j);
    nodes = λ j. ground (arith, member-append j is js, h.nodes j, k.nodes j);
  }

  remove_node-Removed :
      (id : NodeId) (l : InnerLoop bimap)
      → IsValid f64 l
      → Returns (remove_node f64 id l) (λ r. Removed (id ∷ []) l r.0)
  unfolding remove_node
  remove_node-Removed id l h =
      Returns-bind (State.remove_node f64 id l.feeds.node_state) _
        (λ r. Index.IsValid f64 r.0 × Without id l.feeds.node_state r.0)
        (λ r. Removed (id ∷ []) l r.0)
        (StateNodes.remove_node-IsValid f64 id l.feeds.node_state h.state)
        (λ r k. record {
          valid = record { state = k.0; feeds = with_state r.0 l.feeds h.feeds };
          node_ids = λ j.
              laws.left-remove_by_left id j l.node_ids
              ∙ ite-same id j none (bimap.get_by_left j l.node_ids)
              ∙ ground arith;
          nodes = λ j. k.1 j ∙ ground arith;
        })

  remove_group-Removed :
      (ids : List NodeId) (l : InnerLoop bimap)
      → IsValid f64 l
      → Returns (remove_group f64 ids l) (λ r. Removed ids l r.0)
  unfolding remove_group
  remove_group-Removed [] l h = none-Removed l h
  remove_group-Removed (id ∷ ids) l h =
      Returns-bind (remove_node f64 id l) _ (λ r. Removed (id ∷ []) l r.0)
        (λ r. Removed (id ∷ ids) l r.0) (remove_node-Removed id l h)
        (λ r k.
          Returns-bind (remove_group f64 ids r.0) _ (λ q. Removed ids r.0 q.0)
            (λ q. Removed (id ∷ ids) l q.0) (remove_group-Removed ids r.0 k.valid)
            (λ q j. Removed-trans (id ∷ []) ids l r.0 q.0 k j))

  remove_groups-Removed :
      (groups : HashMap BlockHash (List NodeId)) (l : InnerLoop bimap)
      → IsValid f64 l
      → Returns (remove_groups f64 groups l) (λ r. Removed (flat groups) l r.0)
  unfolding remove_groups
  remove_groups-Removed [] l h = none-Removed l h
  remove_groups-Removed (e ∷ es) l h =
      Returns-bind (remove_group f64 e.1 l) _ (λ r. Removed e.1 l r.0)
        (λ r. Removed (flat (e ∷ es)) l r.0) (remove_group-Removed e.1 l h)
        (λ r k.
          Returns-bind (remove_groups f64 es r.0) _ (λ q. Removed (flat es) r.0 q.0)
            (λ q. Removed (flat (e ∷ es)) l q.0) (remove_groups-Removed es r.0 k.valid)
            (λ q j. Removed-trans e.1 (flat es) l r.0 q.0 k j))

  pub remove_nodes-Removed :
      (ids : List NodeId) (l : InnerLoop bimap)
      → IsValid f64 l
      → Returns
          (remove_nodes_and_broadcast_result f64 ids l)
          (λ r. Removed (flat (group ids l.feeds.node_state [])) l r.0)
  unfolding remove_nodes_and_broadcast_result
  remove_nodes-Removed ids l h =
      let groups = group ids l.feeds.node_state [] in
      Returns-bind (remove_groups f64 groups l) _ (λ r. Removed (flat groups) l r.0)
        (λ r. Removed (flat groups) l r.0) (remove_groups-Removed groups l h) (λ r k. k)
