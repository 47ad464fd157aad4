-- ===== src/Core/Chain/Membership.antt =====
-- Nodes joining and leaving a chain.
use substrate_telemetry.Prelude.{
  ℕ, ◌≤◌, ◌<◌, ◌≡◌, refl, subst, Bool, true, false, none, some, map, leb, arith, Split, Split-map,
  All-Split, Split-All, ok, Returns, Run-cases, inl, inr, Returns-mono, Option-cases, dec_le, ite,
  ℕ_discrete,
}
use substrate_telemetry.Common.DenseMap.{DenseMap}
use substrate_telemetry.Common.DenseMap
use substrate_telemetry.Common.DenseMap.Contents.{contents}
use substrate_telemetry.Common.DenseMap.Allocation.{
  Added, Removed, add-Added, remove-Removed, remove_absent,
}
use substrate_telemetry.Common.NodeTypes
use substrate_telemetry.Common.NodeTypes.{Location, NodeDetails, Location}
use substrate_telemetry.Core.Counter.{increment, decrement}
use substrate_telemetry.Core.ChainStats.{ChainStats, F64}
use substrate_telemetry.Core.ChainStats
use substrate_telemetry.Core.Node.{Node, Floats}
use substrate_telemetry.Core.Node
use substrate_telemetry.Core.Node.Measurements
use substrate_telemetry.Core.Chain.{
  update_node_location, AddNodeResult, Chain, add_node, added, get_node, is_overquota, node_count,
  overquota, remove_node,
}
use substrate_telemetry.Core.Chain.Validity.{
  IsUnder, IsValid, Kept, put_present, has_node, node-IsValid, put-IsValid, count_node-HoldsSamples,
  sample,
}

module _ (f64 : F64) where
  -- A node that has just connected.
  pub record IsFresh (node : Node) : Type 0 where
    pub measured : Measurements.IsValid node
    pub no_hwbench : node.hwbench ≡ none
    pub no_block : node.best.block.height ≡ 0

  -- A node that `State::add_node` makes.
  pub new-IsFresh :
      (floats : Floats) (now : ℕ) (details : NodeDetails) → IsFresh (Node.new floats now details)
  unfolding Node.new NodeTypes.default_block_details
  new-IsFresh floats now details = record {
    measured = Measurements.new-IsValid floats now details;
    no_hwbench = refl;
    no_block = refl;
  }

  -- What `add_node` returns: the chain is full and unchanged, or the node is in it.
  pub data Joined (c : Chain) (node : Node) : Chain × AddNodeResult → Type 0 where
    refused : c.max_nodes ≤ node_count c → Joined c node (c, overquota)
    joined :
        (c' : Chain) (id : ℕ) (renamed : Bool)
        → node_count c < c.max_nodes
        → Added c.nodes (λ _. node) (c'.nodes, id)
        → IsValid f64 c'
        → c'.genesis_hash ≡ c.genesis_hash
        → Joined c node (c', added id renamed)

  -- `add_node` of a node that has just connected, on a valid chain, does not panic. It refuses the
  -- node exactly if the quota is reached, and then the chain is as before; otherwise the node is in
  -- the chain under a new Id, the other nodes are as before, and the chain is valid.
  pub add_node-Joined :
      (node : Node) (c : Chain)
      → IsValid f64 c
      → IsFresh node
      → Returns (add_node f64 node c) (Joined c node)
  unfolding add_node is_overquota node_count
  add_node-Joined node c v f = elim (dec_le c.max_nodes (DenseMap.len c.nodes)) [
    | yes h ↦
        let e : leb c.max_nodes (DenseMap.len c.nodes) ≡ true = ground arith in rw e (refused h)
    | no h ↦
        let e : leb c.max_nodes (DenseMap.len c.nodes) ≡ false = ground arith in
        let ((nodes, id), e2, a) = add-Added c.nodes node v.slots in
        let moved : Split (sample node) (map sample (contents nodes.items))
            (map sample (contents c.nodes.items)) =
          Split-map sample a.items in
        let (collator, e1, held) =
          Run-cases _
            (ChainStats.add_or_remove_node f64 node.details none increment c.stats_collator)
            (count_node-HoldsSamples f64 increment node.details none _ _ c.stats_collator v.samples
              (subst
                (λ h.
                  Split (record (node.details) { validator = none }, h)
                    (map sample (contents nodes.items)) (map sample (contents c.nodes.items)))
                f.no_hwbench moved)) in
        rw (e, e1, e2)
          (joined _ id _ (omega arith) a
            (record {
              slots = a.valid;
              samples = held;
              quota = omega (arith, a.count);
              times = v.times;
              measured = Split-All Measurements.IsValid a.items f.measured v.measured;
              heights =
                  Split-All (IsUnder c.best.height) a.items (λ _. omega (arith, f.no_block))
                    v.heights;
            })
            refl)
  ]

  -- What `remove_node` leaves of a chain that has the node.
  pub record Left (c : Chain) (id : ℕ) (node : Node) (c' : Chain) : Type 0 where
    pub removed : Removed c.nodes id node c'.nodes
    pub valid : IsValid f64 c'
    pub genesis_hash : c'.genesis_hash ≡ c.genesis_hash

  -- `remove_node` of a node that a valid chain has does not panic. The node is removed and its Id is
  -- free, the other nodes are as before, and the chain is valid, with the statistics of the nodes that
  -- remain.
  pub remove_node-Left :
      (id : ℕ) (node : Node) (c : Chain)
      → IsValid f64 c
      → get_node c id ≡ some node
      → Returns (remove_node f64 id c) (λ r. Left c id node r.0)
  unfolding remove_node get_node
  remove_node-Left id node c v e =
      let (found, r) = remove-Removed c.nodes id node v.slots e in
      let nodes = (DenseMap.remove c.nodes id).0 in
      let (collator, e1, held) =
        Run-cases _
          (ChainStats.add_or_remove_node f64 node.details node.hwbench decrement c.stats_collator)
          (count_node-HoldsSamples f64 decrement node.details node.hwbench _
            (map sample (contents nodes.items)) c.stats_collator v.samples
            (Split-map sample r.items)) in
      rw (remove_node, found, e1)
        (record {
          removed = r;
          valid = record {
            slots = r.valid;
            samples = held;
            quota = omega (arith, r.count, v.quota);
            times = v.times;
            measured = (All-Split Measurements.IsValid r.items v.measured).1;
            heights = (All-Split (IsUnder c.best.height) r.items v.heights).1;
          };
          genesis_hash = refl;
        })

  -- Removing a node that the chain does not have changes nothing.
  pub remove_node_absent :
      (id : ℕ) (c : Chain)
      → get_node c id ≡ none
      → remove_node f64 id c ≡ ok (c, record { chain_renamed = false })
  unfolding remove_node get_node
  remove_node_absent id c e = rw (remove_node, remove_absent c.nodes id e) refl

  -- What `remove_node` leaves of a chain in either case.
  pub record Gone (id : ℕ) (c c' : Chain) : Type 0 where
    pub valid : IsValid f64 c'
    pub genesis_hash : c'.genesis_hash ≡ c.genesis_hash
    pub present : (j : ℕ) → has_node c' j ≡ ite (ℕ_discrete id j) false (has_node c j)

  pub remove_node-Gone :
      (id : ℕ) (c : Chain) → IsValid f64 c → Returns (remove_node f64 id c) (λ r. Gone id c r.0)
  unfolding get_node
  remove_node-Gone id c v = elim (Option-cases (get_node c id)) [
    | inl e ↦
        rw (remove_node_absent id c e)
          (record { valid = v; genesis_hash = refl; present = λ j. ground (arith, e) })
    | inr (node, e) ↦
        Returns-mono (remove_node f64 id c) _ _ (remove_node-Left id node c v e) (λ r l. record {
          valid = l.valid;
          genesis_hash = l.genesis_hash;
          present = λ j. ground (arith, l.removed.reads j);
        })
  ]

  -- Locating a node keeps the chain valid.
  pub update_node_location-Kept :
      (id : ℕ) (location : Location) (c : Chain)
      → IsValid f64 c
      → Kept f64 c (update_node_location id location c).0
  unfolding update_node_location Node.update_location
  update_node_location-Kept id location c v = elim (Option-cases (DenseMap.get c.nodes id)) [
    | inl e ↦
        rw (update_node_location, e)
          (record { valid = v; genesis_hash = refl; present = λ j. refl })
    | inr (node, e) ↦
        let (m, u) = node-IsValid f64 c id node v e in
        let node' : Node = record node { location = location } in
        rw (update_node_location, e)
          (record {
            valid =
                put-IsValid f64 c id node node' v e refl
                  (Measurements.measured_alike node node' refl refl m) u;
            genesis_hash = refl;
            present = put_present c id node node' v.slots e;
          })
  ]
