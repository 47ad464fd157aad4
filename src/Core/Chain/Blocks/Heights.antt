-- ===== src/Core/Chain/Blocks/Heights.antt =====
-- What `handle_block` does to a chain.
use substrate_telemetry.Prelude.{
  ℕ, ◌≤◌, ◌<◌, ◌≡◌, refl, ap, ◌∙◌, inl, inr, true, false, Option, none, some, ltb, arith,
  Option-cases, Returns, Run-cases, saturating_sub, dec_lt,
}
use substrate_telemetry.Common.DenseMap.{DenseMap}
use substrate_telemetry.Common.DenseMap
use substrate_telemetry.Common.NumStats.{NumStats}
use substrate_telemetry.Common.NumStats
use substrate_telemetry.Common.NumStats.History.{push_width}
use substrate_telemetry.Common.NodeTypes.{Block, Timestamp}
use substrate_telemetry.Core.ChainStats.{F64}
use substrate_telemetry.Core.Node.{Node}
use substrate_telemetry.Core.Node
use substrate_telemetry.Core.Node.Measurements
use substrate_telemetry.Core.Chain.{Chain}
use substrate_telemetry.Core.Node.Blocks.{
  update_block_lem, update_block_newer, update_details-Restamped,
}
use substrate_telemetry.Core.Chain.{Readings}
use substrate_telemetry.Core.Chain.Validity.{
  IsValid, Kept, put_present, node-IsValid, sample_alike, put-IsValid, raise-IsValid,
}
use substrate_telemetry.Core.Chain.Stale.{regenerate_stats_if_necessary, update_stale_nodes}
use substrate_telemetry.Core.Chain.Stale.Freshness.{regenerate_stats-Kept, update_stale_nodes-Kept}
use substrate_telemetry.Core.Chain.Blocks.{
  handle_best, handle_block, import_block, note_block, time_since,
}

module _ (f64 : F64) where
  -- After a node has reported a block above its own best one, the chain covers that block.
  record Noted (c : Chain) (block : Block) (c' : Chain) : Type 0 where
    kept : Kept f64 c c'
    nodes : c'.nodes ≡ c.nodes
    covered : block.height ≤ c'.best.height
    higher : c.best.height ≤ c'.best.height

  time_since-Noted :
      (now : ℕ) (block : Block) (c : Chain) (t : Option Timestamp)
      → IsValid f64 c
      → c.best.height < block.height
      → Returns
          (time_since now c t)
          (λ c'. Noted c block (record c' { best = block; timestamp = some now }))
  unfolding time_since
  time_since-Noted now block c none v h = record {
    kept = record {
      valid =
          raise-IsValid f64 c block c.finalized c.block_times c.average_block_time (some now)
            c.stats c.stats_last_regenerated v v.times (omega arith);
      genesis_hash = refl;
      present = λ j. refl;
    };
    nodes = refl;
    covered = omega arith;
    higher = omega arith;
  }
  time_since-Noted now block c (some t) v h =
      let (times, e, width) =
        Run-cases _ (NumStats.push c.block_times (saturating_sub now t))
          (push_width 49 c.block_times (saturating_sub now t) v.times) in
      rw e (record {
        kept = record {
          valid =
              raise-IsValid f64 c block c.finalized times (some (NumStats.average times)) (some now)
                c.stats c.stats_last_regenerated v width (omega arith);
          genesis_hash = refl;
          present = λ j. refl;
        };
        nodes = refl;
        covered = omega arith;
        higher = omega arith;
      })

  note_block-Noted :
      (now : ℕ) (block : Block) (c : Chain)
      → IsValid f64 c
      → Returns (note_block now block c) (λ r. Noted c block r.0)
  unfolding note_block
  note_block-Noted now block c v = elim (dec_lt c.best.height block.height) [
    | yes h ↦
        let e : ltb c.best.height block.height ≡ true = ground arith in
        let (c', e', n) =
          Run-cases _ (time_since now c c.timestamp)
            (time_since-Noted now block c c.timestamp v h) in
        rw (e, e') n
    | no h ↦
        let e : ltb c.best.height block.height ≡ false = ground arith in
        rw e (record {
          kept = record { valid = v; genesis_hash = refl; present = λ j. refl };
          nodes = refl;
          covered = omega arith;
          higher = omega arith;
        })
  ]

  import_block-Kept :
      (now : ℕ) (block : Block) (nid : ℕ) (node : Node) (c : Chain)
      → IsValid f64 c
      → DenseMap.get c.nodes nid ≡ some node
      → Returns (import_block now block nid node c) (λ r. Kept f64 c r.0)
  unfolding import_block
  import_block-Kept now block nid node c v found = elim (update_block_lem block node) [
    | inr (h, e) ↦ rw e (record { valid = v; genesis_hash = refl; present = λ j. refl })
    | inl (h, _, _, _) ↦
        let node' : Node = record node {
          stale = false;
          best = record (node.best) { block = block };
        } in
        let ((c', propagation, feed), e, n) =
          Run-cases _ (note_block now block c) (note_block-Noted now block c v) in
        let m = (node-IsValid f64 c nid node v found).0 in
        let r = update_details-Restamped now propagation node' in
        let node'' = (Node.update_details now propagation node').0 in
        rw (update_block_newer block node h, e)
          (record {
            valid =
                put-IsValid f64 c' nid node node'' n.kept.valid
                  (ap (λ (nodes : DenseMap Node). DenseMap.get nodes nid) n.nodes ∙ found)
                  (sample_alike node node'' r.details r.hwbench)
                  (Measurements.measured_alike node node'' r.hardware r.io m)
                  (λ _. omega (arith, n.covered, ap (λ (b : Block). b.height) r.block));
            genesis_hash = n.kept.genesis_hash;
            present = λ j.
                put_present c' nid node node'' n.kept.valid.slots
                  (ap (λ (nodes : DenseMap Node). DenseMap.get nodes nid) n.nodes ∙ found) j
                ∙ n.kept.present j;
          })
  ]

  -- `handle_block` on a valid chain does not panic, and the chain is valid afterwards.
  pub handle_block-Kept :
      (readings : Readings) (block : Block) (nid : ℕ) (c : Chain)
      → IsValid f64 c
      → Returns (handle_block readings block nid c) (λ r. Kept f64 c r.0)
  unfolding handle_block
  handle_block-Kept readings block nid c v =
      let c1 = (update_stale_nodes readings.now c).0 in
      let k1 = update_stale_nodes-Kept f64 readings.now c v in
      let c2 = (regenerate_stats_if_necessary readings.instant c1).0 in
      let k2 = regenerate_stats-Kept f64 readings.instant c1 k1.valid in
      elim (Option-cases (DenseMap.get c2.nodes nid)) [
        | inl e ↦
            rw (handle_block, e)
              (record {
                valid = k2.valid;
                genesis_hash = k2.genesis_hash ∙ k1.genesis_hash;
                present = λ j. k2.present j ∙ k1.present j;
              })
        | inr (node, e) ↦
            let (r, e', k3) =
              Run-cases _ (import_block readings.now block nid node c2)
                (import_block-Kept readings.now block nid node c2 k2.valid e) in
            rw (handle_block, e, e')
              (record {
                valid = k3.valid;
                genesis_hash = k3.genesis_hash ∙ k2.genesis_hash ∙ k1.genesis_hash;
                present = λ j. k3.present j ∙ k2.present j ∙ k1.present j;
              })
      ]

  pub handle_best-Kept :
      (readings : Readings) (best : Option Block) (nid : ℕ) (c : Chain)
      → IsValid f64 c
      → Returns (handle_best readings best nid c) (λ r. Kept f64 c r.0)
  unfolding handle_best
  handle_best-Kept readings none nid c v = record {
    valid = v;
    genesis_hash = refl;
    present = λ j. refl;
  }
  handle_best-Kept readings (some block) nid c v = handle_block-Kept readings block nid c v
