-- ===== src/Core/Chain/Payloads/Updates.antt =====
-- What `update_node` does to a chain, on each payload.
use substrate_telemetry.Prelude.{
  ℕ, ◌≡◌, refl, sym, ap, ◌∙◌, inl, inr, Bool, Option, none, some, ltb, arith, Option-cases,
  Bool-cases, ◌>>=◌, Returns, Run-cases,
}
use substrate_telemetry.Common.DenseMap.{DenseMap}
use substrate_telemetry.Common.DenseMap
use substrate_telemetry.Common.NodeTypes.{Block, BlockDetails}
use substrate_telemetry.Core.Counter.{increment, decrement}
use substrate_telemetry.Core.ChainStats.{ChainStats, F64}
use substrate_telemetry.Core.ChainStats
use substrate_telemetry.Core.Node.{Node, Floats}
use substrate_telemetry.Core.Node
use substrate_telemetry.Core.Node.Measurements
use substrate_telemetry.Core.Chain.{Chain}
use substrate_telemetry.Common.NodeMessage
use substrate_telemetry.Common.NodeMessage.{
  Payload, SystemInterval, afg_authority_set, block_import, finalized_block, hw_bench,
  notify_finalized, system_connected, system_interval,
}
use substrate_telemetry.Core.Node.Blocks.{update_finalized_lem}
use substrate_telemetry.Core.Node.Measurements.{Remeasured}
use substrate_telemetry.Core.Feed.{Feed}
use substrate_telemetry.Core.Chain.{Readings}
use substrate_telemetry.Core.Chain.Validity.{
  IsUnder, IsValid, Kept, hwbench-IsValid, node-IsValid, put-IsValid, raise-IsValid, sample,
  put_present, sample_alike,
}
use substrate_telemetry.Core.Chain.Blocks.{handle_best}
use substrate_telemetry.Core.Chain.Blocks.Heights.{handle_best-Kept}
use substrate_telemetry.Core.Chain.Payloads.{
  apply_payload, finalize, update_found, write_finalized, update_interval, update_node,
}

module _ (f64 : F64) where
  -- The chain whose node `nid` is written over, once its finalized block may have moved.
  finalize-Kept :
      (nid : ℕ) (block : Option Block) (node node' : Node) (c : Chain)
      → IsValid f64 c
      → DenseMap.get c.nodes nid ≡ some node
      → sample node' ≡ sample node
      → Measurements.IsValid node'
      → IsUnder c.best.height node'
      → Kept f64 c (finalize nid block node' c).0
  unfolding finalize write_finalized
  finalize-Kept nid none node node' c v e s m u = record {
    valid = put-IsValid f64 c nid node node' v e s m u;
    genesis_hash = refl;
    present = put_present c nid node node' v.slots e;
  }
  finalize-Kept nid (some block) node node' c v e s m u =
      let node'' : Node = record node' { finalized = block } in
      let w =
        put-IsValid f64 c nid node node'' v e s
          (Measurements.measured_alike node' node'' refl refl m) u in
      elim (update_finalized_lem block node') [
        | inr (_, same) ↦
            rw (finalize, same)
              (record {
                valid = put-IsValid f64 c nid node node' v e s m u;
                genesis_hash = refl;
                present = put_present c nid node node' v.slots e;
              })
        | inl (_, moved) ↦ elim (Bool-cases (ltb c.finalized.height block.height)) [
          | inl h ↦
              rw (finalize, moved, h)
                (record {
                  valid =
                      raise-IsValid f64 _ c.best block c.block_times c.average_block_time
                        c.timestamp c.stats c.stats_last_regenerated w v.times (omega arith);
                  genesis_hash = refl;
                  present = put_present c nid node node'' v.slots e;
                })
          | inr h ↦
              rw (finalize, moved, h)
                (record {
                  valid = w;
                  genesis_hash = refl;
                  present = put_present c nid node node'' v.slots e;
                })
        ]
      ]

  module _ (floats : Floats) where
    update_interval-Remeasured :
        (stamp nid : ℕ) (interval : SystemInterval) (node : Node)
        → Measurements.IsValid node
        → Returns (update_interval floats f64 stamp nid interval node) (λ r. Remeasured node r.0)
    unfolding update_interval
    update_interval-Remeasured stamp nid interval node m =
        let (r1, e1, k1) =
          Run-cases _ (Node.update_hardware floats stamp interval node)
            (Measurements.update_hardware-Remeasured floats stamp interval node m) in
        let node2 = (Node.update_stats interval r1.0).0 in
        let k2 = Measurements.update_stats-Remeasured interval r1.0 k1.valid in
        let (r3, e3, k3) =
          Run-cases _ (Node.update_io floats interval node2)
            (Measurements.update_io-Remeasured floats interval node2 k2.valid) in
        rw (update_interval, e1, e3)
          (Measurements.Remeasured-trans k1 (Measurements.Remeasured-trans k2 k3))

    -- The arm of a payload that does nothing but move the finalized block.
    plain_payload-Kept :
        (nid : ℕ) (payload : Payload) (node : Node) (c : Chain)
        → IsValid f64 c
        → DenseMap.get c.nodes nid ≡ some node
        → Kept f64 c (finalize nid (finalized_block payload) node c).0
    plain_payload-Kept nid payload node c v e =
        let (m, u) = node-IsValid f64 c nid node v e in
        finalize-Kept nid (finalized_block payload) node node c v e refl m u

    hw_bench-Kept :
        (stamp nid : ℕ) (hwbench : NodeMessage.NodeHwBench) (expose : Bool) (node : Node)
        (c : Chain)
        → IsValid f64 c
        → DenseMap.get c.nodes nid ≡ some node
        → Returns
            (apply_payload floats f64 stamp nid (hw_bench hwbench) expose node c)
            (λ r. Kept f64 c r.0)
    unfolding apply_payload Node.update_hwbench finalized_block finalize write_finalized
    hw_bench-Kept stamp nid hwbench expose node c v e =
        let new = some (record {
          cpu_hashrate_score = hwbench.cpu_hashrate_score;
          memory_memcpy_score = hwbench.memory_memcpy_score;
          disk_sequential_write_score = hwbench.disk_sequential_write_score;
          disk_random_write_score = hwbench.disk_random_write_score;
        }) in
        let node' : Node = record node { hwbench = new } in
        let (collator, e1, w) =
          Run-cases _
            (ChainStats.update_hwbench f64 node.hwbench decrement c.stats_collator
              >>= ChainStats.update_hwbench f64 new increment)
            (hwbench-IsValid f64 c nid node new v e) in
        rw e1 (record {
          valid = w;
          genesis_hash = refl;
          present = put_present c nid node node' v.slots e;
        })

    apply_payload-Kept :
        (stamp nid : ℕ) (payload : Payload) (expose : Bool) (node : Node) (c : Chain)
        → IsValid f64 c
        → DenseMap.get c.nodes nid ≡ some node
        → Returns (apply_payload floats f64 stamp nid payload expose node c) (λ r. Kept f64 c r.0)
    unfolding apply_payload
    apply_payload-Kept stamp nid (system_interval interval) expose node c v e =
        let (m, u) = node-IsValid f64 c nid node v e in
        let ((node', feed), e', k) =
          Run-cases _ (update_interval floats f64 stamp nid interval node)
            (update_interval-Remeasured stamp nid interval node m) in
        rw e' (
          finalize-Kept nid (finalized_block (system_interval interval)) node node' c v e
            (sample_alike node node' k.details k.hwbench) k.valid
            (λ fresh.
              let below = u (sym k.stale ∙ fresh) in
              omega (arith, below, ap (λ (b : BlockDetails). b.block.height) k.best)))
    apply_payload-Kept stamp nid (afg_authority_set authority) expose node c v e =
        elim (Measurements.set_validator_address_cases authority.authority_id node) [
          | inl same ↦
              let (m, u) = node-IsValid f64 c nid node v e in
              rw same (record {
                valid = put-IsValid f64 c nid node node v e refl m u;
                genesis_hash = refl;
                present = put_present c nid node node v.slots e;
              })
          | inr changed ↦
              let (m, u) = node-IsValid f64 c nid node v e in
              let node' : Node = record node {
                details = record (node.details) { validator = some authority.authority_id };
              } in
              rw changed (record {
                valid =
                    put-IsValid f64 c nid node node' v e refl
                      (Measurements.measured_alike node node' refl refl m) u;
                genesis_hash = refl;
                present = put_present c nid node node' v.slots e;
              })
        ]
    apply_payload-Kept stamp nid (hw_bench hwbench) expose node c v e =
        hw_bench-Kept stamp nid hwbench expose node c v e
    apply_payload-Kept stamp nid (block_import block) expose node c v e =
        plain_payload-Kept nid (block_import block) node c v e
    apply_payload-Kept stamp nid (notify_finalized finalized) expose node c v e =
        plain_payload-Kept nid (notify_finalized finalized) node c v e
    apply_payload-Kept stamp nid (system_connected connected) expose node c v e =
        plain_payload-Kept nid (system_connected connected) node c v e

    update_found-Kept :
        (stamp nid : ℕ) (payload : Payload) (expose : Bool) (c : Chain) (feed : Feed)
        → IsValid f64 c
        → Returns (update_found floats f64 stamp nid payload expose c feed) (λ r. Kept f64 c r.0)
    unfolding update_found
    update_found-Kept stamp nid payload expose c feed v =
        elim (Option-cases (DenseMap.get c.nodes nid)) [
          | inl e ↦
              rw (update_found, e) (record { valid = v; genesis_hash = refl; present = λ j. refl })
          | inr (node, e) ↦
              let (r, e', k) =
                Run-cases _ (apply_payload floats f64 stamp nid payload expose node c)
                  (apply_payload-Kept stamp nid payload expose node c v e) in
              rw (update_found, e, e') k
        ]

    -- `update_node` on a valid chain does not panic, whatever the payload, and keeps the chain valid.
    pub update_node-Kept :
        (readings : Readings) (nid : ℕ) (payload : Payload) (expose : Bool) (c : Chain)
        → IsValid f64 c
        → Returns (update_node floats f64 readings nid payload expose c) (λ r. Kept f64 c r.0)
    unfolding update_node
    update_node-Kept readings nid payload expose c v =
        let ((c1, feed1), e1, k1) =
          Run-cases _ (handle_best readings (NodeMessage.best_block payload) nid c)
            (handle_best-Kept f64 readings (NodeMessage.best_block payload) nid c v) in
        let (r, e2, k2) =
          Run-cases _ (update_found floats f64 readings.stamp nid payload expose c1 feed1)
            (update_found-Kept readings.stamp nid payload expose c1 feed1 k1.valid) in
        rw (e1, e2)
          (record {
            valid = k2.valid;
            genesis_hash = k2.genesis_hash ∙ k1.genesis_hash;
            present = λ j. k2.present j ∙ k1.present j;
          })
