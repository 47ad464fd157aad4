-- ===== src/Core/Node/Blocks.antt =====
-- The blocks of a node: which updates move its best and its finalized block, and whether it is stale.
use substrate_telemetry.Prelude.{
  ℕ, ◌+◌, ◌≤◌, ◌<◌, ◌≡◌, refl, ◌⊎◌, inl, inr, true, false, Option, none, some, ltb, leb, arith,
  Bool-cases, u64_mod, add64, sub64, add64_small, dec_lt,
}
use substrate_telemetry.Common.NodeTypes.{Block}
use substrate_telemetry.Core.Node.{
  Node, throttle_interval, throttle_threshold, update_block, update_details, update_finalized,
}

-- `update_block` answers `true` exactly for a block above the node's best one. Then that block is the
-- node's best one and the node is not stale; otherwise nothing changes.
pub update_block_lem :
    (block : Block) (node : Node)
    → ((node.best.block.height < block.height)
        × ((update_block block node).1 ≡ true)
        × ((update_block block node).0.best.block ≡ block)
        × ((update_block block node).0.stale ≡ false))
      ⊎ ((block.height ≤ node.best.block.height) × (update_block block node ≡ (node, false)))
unfolding update_block
update_block_lem block node = elim (dec_lt node.best.block.height block.height) [
  | yes h ↦
      let e : ltb node.best.block.height block.height ≡ true = ground arith in
      inl (h, (rw e refl), (rw e refl), (rw e refl))
  | no h ↦
      let e : ltb node.best.block.height block.height ≡ false = ground arith in
      inr ((omega arith), (rw e refl))
]

-- What `update_details` leaves alone.
pub record Restamped (node node' : Node) : Type 0 where
  pub details : node'.details ≡ node.details
  pub hwbench : node'.hwbench ≡ node.hwbench
  pub hardware : node'.hardware ≡ node.hardware
  pub io : node'.io ≡ node.io
  pub stale : node'.stale ≡ node.stale
  pub block : node'.best.block ≡ node.best.block

pub update_details-Restamped :
    (now : ℕ) (propagation_time : Option ℕ) (node : Node)
    → Restamped node (update_details now propagation_time node).0
unfolding update_details
update_details-Restamped now propagation_time node = elim (Bool-cases (ltb node.throttle now)) [
  | inl e ↦ rw e (record {
    details = refl;
    hwbench = refl;
    hardware = refl;
    io = refl;
    stale = refl;
    block = refl;
  })
  | inr e ↦ rw e (record {
    details = refl;
    hwbench = refl;
    hardware = refl;
    io = refl;
    stale = refl;
    block = refl;
  })
]

pub update_block_newer :
    (block : Block) (node : Node)
    → node.best.block.height < block.height
    → update_block block node
      ≡ (record node { stale = false; best = record (node.best) { block = block } }, true)
unfolding update_block
update_block_newer block node h =
    let e : ltb node.best.block.height block.height ≡ true = ground arith in rw e refl

-- The best block of a node never goes down.
pub update_block_monotone :
    (block : Block) (node : Node)
    → node.best.block.height ≤ (update_block block node).0.best.block.height
unfolding update_block
update_block_monotone block node = ground arith

-- `update_finalized` hands the block back exactly if it is above the node's finalized block, which it
-- then is; otherwise nothing changes.
pub update_finalized_lem :
    (block : Block) (node : Node)
    → ((node.finalized.height < block.height)
        × (update_finalized block node ≡ (record node { finalized = block }, some block)))
      ⊎ ((block.height ≤ node.finalized.height) × (update_finalized block node ≡ (node, none)))
unfolding update_finalized
update_finalized_lem block node = elim (dec_lt node.finalized.height block.height) [
  | yes h ↦
      let e : ltb node.finalized.height block.height ≡ true = ground arith in inl (h, (rw e refl))
  | no h ↦
      let e : ltb node.finalized.height block.height ≡ false = ground arith in
      inr ((omega arith), (rw e refl))
]

-- Within the interval after details went out, unless the blocks are slow, no details go out again.
pub update_details_throttled :
    (now later : ℕ) (p q : Option ℕ) (node : Node)
    → node.throttle < now
    → sub64 now node.best.block_timestamp ≤ throttle_threshold
    → now + throttle_interval < u64_mod
    → later ≤ now + throttle_interval
    → (update_details later q (update_details now p node).0).1 ≡ none
unfolding update_details
update_details_throttled now later p q node free fast small soon =
    let e : ltb node.throttle now ≡ true = ground arith in
    let e' : leb (sub64 now node.best.block_timestamp) throttle_threshold ≡ true = ground arith in
    let sum : add64 now throttle_interval ≡ now + throttle_interval =
      add64_small now throttle_interval small in
    let e'' : ltb (now + throttle_interval) later ≡ false = ground arith in
    rw (e, e', sum, e'') refl
