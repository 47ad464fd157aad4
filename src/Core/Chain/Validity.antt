-- ===== src/Core/Chain/Validity.antt =====
-- When a chain is well formed: its slots, its quota, its statistics and its best block agree with its
-- nodes.
use substrate_telemetry.Prelude.{
  ℕ, ◌≤◌, ◌≡◌, refl, subst, sym, ap, ◌∙◌, false, Bool, is_some, Option, none, some, List, map,
  text_key, bucket_key, bool_key, nat_key, arith, length, All, Split-map, All-Split, Split-All,
  All-mono, length-Split, Option-cases, inl, inr, ◌>>=◌, Returns, Run-cases,
}
use substrate_telemetry.Common.DenseMap.{DenseMap}
use substrate_telemetry.Common.DenseMap
use substrate_telemetry.Common.DenseMap.Slots
use substrate_telemetry.Common.DenseMap.Allocation
use substrate_telemetry.Common.DenseMap.Contents.{
  contents, length-contents, map-contents-put, put-Replaced, get-new,
}
use substrate_telemetry.Common.DenseMap.Allocation.{len-occupied}
use substrate_telemetry.Common.NumStats.{NumStats}
use substrate_telemetry.Common.NumStats.History.{new-Tracks}
use substrate_telemetry.Common.NodeTypes.{NodeDetails, NodeHwBench, Block, BlockHash, Timestamp}
use substrate_telemetry.Core.Counter.{CounterValue, decrement, increment}
use substrate_telemetry.Core.ChainStats.{ChainStats, ChainStatsCollator, F64}
use substrate_telemetry.Core.ChainStats
use substrate_telemetry.Core.ChainStats.Samples.{
  HoldsSamples, MovesSample, Sample, add_or_remove_node-HoldsSamples, add_or_remove_node_validator,
  default-HoldsSamples, update_hwbench-HoldsSamples,
}
use substrate_telemetry.Core.Node.{Node}
use substrate_telemetry.Core.Node.Measurements
use substrate_telemetry.Core.Chain.{Chain}
use substrate_telemetry.Core.Chain

-- The node as the statistics see it, which do not count the validator.
abbrev pub sample : Node → Sample
sample node = (record (node.details) { validator = none }, node.hwbench)

-- Unless the node is stale, its best block is not above the height.
abbrev pub IsUnder : ℕ → Node → Type 0
IsUnder height node = node.stale ≡ false → node.best.block.height ≤ height

pub sample_alike :
    (x y : Node) → y.details ≡ x.details → y.hwbench ≡ x.hwbench → sample y ≡ sample x
sample_alike x y d h =
    ap (λ (a : NodeDetails). (record a { validator = none }, y.hwbench)) d
    ∙ ap (λ b. (record (x.details) { validator = none }, b)) h

pub new_genesis :
    (genesis_hash : BlockHash) (max_nodes instant : ℕ)
    → (Chain.new genesis_hash max_nodes instant).genesis_hash ≡ genesis_hash
unfolding Chain.new
new_genesis genesis_hash max_nodes instant = refl

-- Whether the chain has a node under the Id.
abbrev pub has_node : Chain → ℕ → Bool
has_node c id = is_some (DenseMap.get c.nodes id)

pub new_has_node :
    (genesis_hash : BlockHash) (max_nodes instant j : ℕ)
    → has_node (Chain.new genesis_hash max_nodes instant) j ≡ false
unfolding Chain.new
new_has_node genesis_hash max_nodes instant j = ap is_some (get-new {T = Node} j)

-- Writing over a node leaves the same Ids in use.
pub put_present :
    (c : Chain) (id : ℕ) (x y : Node)
    → Slots.IsValid c.nodes
    → DenseMap.get c.nodes id ≡ some x
    → (j : ℕ) → has_node (record c { nodes = DenseMap.put c.nodes id y }) j ≡ has_node c j
put_present c id x y v e j = let r = put-Replaced c.nodes id x y v e in ground (arith, r.reads j, e)

module _ (f64 : F64) where
  pub record IsValid (c : Chain) : Type 0 where
    pub slots : Slots.IsValid c.nodes
    pub samples : HoldsSamples f64 c.stats_collator (map sample (contents c.nodes.items))
    pub quota : DenseMap.len c.nodes ≤ c.max_nodes
    pub times : length c.block_times.stack ≡ 50
    pub measured : All Measurements.IsValid (contents c.nodes.items)
    pub heights : All (IsUnder c.best.height) (contents c.nodes.items)

  -- A valid chain is within its quota.
  pub node_count-IsValid : (c : Chain) → IsValid c → Chain.node_count c ≤ c.max_nodes
  unfolding Chain.node_count
  node_count-IsValid c v = v.quota

  -- A chain with no nodes has none under any Id.
  pub has_node-empty :
      (c : Chain) (j : ℕ) → IsValid c → Chain.node_count c ≡ 0 → has_node c j ≡ false
  unfolding Chain.node_count
  has_node-empty c j v z = elim (Option-cases (DenseMap.get c.nodes j)) [
    | inl e ↦ rw e refl
    | inr (node, e) ↦
        let r = put-Replaced c.nodes j node node v.slots e in
        absurd (
          omega (
            arith,
            z,
            length-Split r.before,
            length-contents c.nodes.items,
            len-occupied c.nodes v.slots,
          ))
  ]

  -- What a call that updates a chain keeps.
  pub record Kept (c c' : Chain) : Type 0 where
    pub valid : IsValid c'
    pub genesis_hash : c'.genesis_hash ≡ c.genesis_hash
    pub present : (id : ℕ) → has_node c' id ≡ has_node c id

  -- A new chain is valid.
  pub new-IsValid :
      (genesis_hash : BlockHash) (max_nodes instant : ℕ)
      → IsValid (Chain.new genesis_hash max_nodes instant)
  unfolding Chain.new DenseMap.new
  new-IsValid genesis_hash max_nodes instant = record {
    slots = Allocation.new-IsValid;
    samples = default-HoldsSamples f64;
    quota = omega (arith, len-occupied {T = Node} DenseMap.new Allocation.new-IsValid);
    times = (new-Tracks 49).width;
    measured = tt;
    heights = tt;
  }

  -- The fields that are not about the nodes may change, if the best block does not go down.
  pub raise-IsValid :
      (c : Chain) (best finalized : Block) (block_times : NumStats) (average : Option ℕ)
      (timestamp : Option Timestamp) (stats : ChainStats) (regenerated : ℕ)
      → IsValid c
      → length block_times.stack ≡ 50
      → c.best.height ≤ best.height
      → IsValid (record c {
        best = best;
        finalized = finalized;
        block_times = block_times;
        average_block_time = average;
        timestamp = timestamp;
        stats = stats;
        stats_last_regenerated = regenerated;
      })
  raise-IsValid c best finalized block_times average timestamp stats regenerated v t h = record {
    slots = v.slots;
    samples = v.samples;
    quota = v.quota;
    times = t;
    measured = v.measured;
    heights =
        All-mono (IsUnder c.best.height) (IsUnder best.height)
          (λ node under fresh. let below = under fresh in omega arith) (contents c.nodes.items)
          v.heights;
  }

  -- A node may be replaced by one that the statistics see alike.
  pub put-IsValid :
      (c : Chain) (id : ℕ) (x y : Node)
      → IsValid c
      → DenseMap.get c.nodes id ≡ some x
      → sample y ≡ sample x
      → Measurements.IsValid y
      → IsUnder c.best.height y
      → IsValid (record c { nodes = DenseMap.put c.nodes id y })
  put-IsValid c id x y v e same m u =
      let r = put-Replaced c.nodes id x y v.slots e in
      record {
        slots = r.valid;
        samples =
            subst (HoldsSamples f64 c.stats_collator)
              (sym (map-contents-put sample c.nodes id x y e same)) v.samples;
        quota = omega (
          arith,
          v.quota,
          len-occupied c.nodes v.slots,
          len-occupied (DenseMap.put c.nodes id y) r.valid,
          length-contents c.nodes.items,
          length-contents (DenseMap.put c.nodes id y).items,
          length-Split r.before,
          length-Split r.after,
        );
        times = v.times;
        measured =
            Split-All Measurements.IsValid r.after m
              (All-Split Measurements.IsValid r.before v.measured).1;
        heights =
            Split-All (IsUnder c.best.height) r.after u
              (All-Split (IsUnder c.best.height) r.before v.heights).1;
      }

  -- Counting a node in or out, with its validator left out of the sample.
  pub count_node-HoldsSamples :
      (op : CounterValue) (details : NodeDetails) (hwbench : Option NodeHwBench)
      (before after : List Sample) (collator : ChainStatsCollator)
      → HoldsSamples f64 collator before
      → MovesSample op (record details { validator = none }, hwbench) before after
      → Returns
          (ChainStats.add_or_remove_node f64 details hwbench op collator)
          (λ c'. HoldsSamples f64 c' after)
  count_node-HoldsSamples op details hwbench before after collator h m =
      subst (λ r. Returns r (λ c'. HoldsSamples f64 c' after))
        (sym (add_or_remove_node_validator f64 details hwbench op collator))
        (add_or_remove_node-HoldsSamples f64 op (record details { validator = none }) hwbench before
          after collator h m)

  -- What is known of each node.
  pub node-IsValid :
      (c : Chain) (id : ℕ) (node : Node)
      → IsValid c
      → DenseMap.get c.nodes id ≡ some node
      → Measurements.IsValid node × IsUnder c.best.height node
  node-IsValid c id node v e =
      let s = (put-Replaced c.nodes id node node v.slots e).before in
      (
        (All-Split Measurements.IsValid s v.measured).0,
        (All-Split (IsUnder c.best.height) s v.heights).0,
      )

  -- A node may be given another benchmark, if its scores are counted out and in.
  pub hwbench-IsValid :
      (c : Chain) (id : ℕ) (node : Node) (new : Option NodeHwBench)
      → IsValid c
      → DenseMap.get c.nodes id ≡ some node
      → Returns
          (ChainStats.update_hwbench f64 node.hwbench decrement c.stats_collator
            >>= ChainStats.update_hwbench f64 new increment)
          (λ collator. IsValid (record c {
            stats_collator = collator;
            nodes = DenseMap.put c.nodes id (record node { hwbench = new });
          }))
  hwbench-IsValid c id node new v e =
      let node' : Node = record node { hwbench = new } in
      let r = put-Replaced c.nodes id node node' v.slots e in
      let (m, u) = node-IsValid c id node v e in
      let (collator, e1, held) =
        Run-cases _
          (ChainStats.update_hwbench f64 node.hwbench decrement c.stats_collator
            >>= ChainStats.update_hwbench f64 new increment)
          (update_hwbench-HoldsSamples f64 (record (node.details) { validator = none }) node.hwbench
            new (map sample (contents c.nodes.items))
            (map sample (contents (DenseMap.put c.nodes id node').items)) (map sample r.less)
            c.stats_collator v.samples (Split-map sample r.before) (Split-map sample r.after)) in
      rw e1 (record {
        slots = r.valid;
        samples = held;
        quota = omega (
          arith,
          v.quota,
          len-occupied c.nodes v.slots,
          len-occupied (DenseMap.put c.nodes id node') r.valid,
          length-contents c.nodes.items,
          length-contents (DenseMap.put c.nodes id node').items,
          length-Split r.before,
          length-Split r.after,
        );
        times = v.times;
        measured =
            Split-All Measurements.IsValid r.after
              (Measurements.measured_alike node node' refl refl m)
              (All-Split Measurements.IsValid r.before v.measured).1;
        heights =
            Split-All (IsUnder c.best.height) r.after u
              (All-Split (IsUnder c.best.height) r.before v.heights).1;
      })
