-- ===== src/Core/Chain/Payloads.antt =====
-- backend/telemetry_core/src/state/chain.rs: `update_node`, on each payload of a node.
pub mod Updates
use substrate_telemetry.Prelude.{
  ℕ, Bool, Option, none, some, [], ◌∷◌, ◌++◌, ltb, if◌then◌else◌, Run, ok, ◌>>=◌,
}
use substrate_telemetry.Common.DenseMap.{DenseMap}
use substrate_telemetry.Common.DenseMap
use substrate_telemetry.Common.MostSeen
use substrate_telemetry.Common.NumStats
use substrate_telemetry.Common.NodeMessage.{
  Payload, SystemInterval, afg_authority_set, finalized_block, hw_bench, system_interval,
}
use substrate_telemetry.Common.NodeMessage
use substrate_telemetry.Common.NodeTypes.{Block, NodeIo, NodeStats}
use substrate_telemetry.Core.Counter.{increment, decrement}
use substrate_telemetry.Core.ChainStats.{ChainStats, F64}
use substrate_telemetry.Core.ChainStats
use substrate_telemetry.Core.Node.{Floats, Node}
use substrate_telemetry.Core.Node
use substrate_telemetry.Core.Feed.{Feed}
use substrate_telemetry.Core.Feed
use substrate_telemetry.Core.Chain.{Chain, Readings}
use substrate_telemetry.Core.Chain.Blocks.{handle_best}

-- A node and the finalized block that `update_finalized` returned for it, written into the chain.
write_finalized : ℕ → Chain → Node × Option Block → Chain × Feed
write_finalized nid c (node, none) = (record c { nodes = DenseMap.put c.nodes nid node }, [])
write_finalized nid c (node, some finalized) =
    let c' = record c { nodes = DenseMap.put c.nodes nid node } in
    if ltb c.finalized.height finalized.height
    then (
      record c' { finalized = finalized },
      Feed.finalized_block nid finalized.height finalized.hash
          ∷ Feed.best_finalized finalized.height finalized.hash
          ∷ [],
    )
    else (c', Feed.finalized_block nid finalized.height finalized.hash ∷ [])

-- `if let Some(block) = payload.finalized_block() { … }`, and the node is written back.
finalize : ℕ → Option Block → Node → Chain → Chain × Feed
unfolding write_finalized
finalize nid none node c = write_finalized nid c (node, none)
finalize nid (some block) node c = write_finalized nid c (Node.update_finalized block node)

stats_feed : ℕ → Option NodeStats → Feed
stats_feed nid none = []
stats_feed nid (some stats) = Feed.node_stats_update nid stats ∷ []

io_feed : ℕ → Option NodeIo → Feed
io_feed nid none = []
io_feed nid (some io) = Feed.node_io_update nid io ∷ []

module _ (floats : Floats) (f64 : F64) where
  -- The arm `SystemInterval`.
  update_interval : ℕ → ℕ → SystemInterval → Node → Run (Node × Feed)
  unfolding stats_feed io_feed
  update_interval stamp nid interval node = do
    (node1, changed) ← Node.update_hardware floats stamp interval node
    let (node2, stats) = Node.update_stats interval node1
    (node3, io) ← Node.update_io floats interval node2
    ok (
      node3,
      (if changed then Feed.hardware nid node1.hardware ∷ [] else [])
          ++ stats_feed nid stats
          ++ io_feed nid io,
    )

  -- The rest of `update_node`, on the node that it finds.
  apply_payload : ℕ → ℕ → Payload → Bool → Node → Chain → Run (Chain × Feed)
  unfolding update_interval finalize
  apply_payload stamp nid (system_interval interval) expose node c = do
    (node', feed) ← update_interval stamp nid interval node
    let (c', feed') = finalize nid (finalized_block (system_interval interval)) node' c
    ok (c', feed ++ feed')
  apply_payload stamp nid (afg_authority_set authority) expose node c =
      let (node', changed) = Node.set_validator_address authority.authority_id node in
      ok (
        record c { nodes = DenseMap.put c.nodes nid node' },
        (if changed then Feed.added_node nid node' expose ∷ [] else []),
      )
  apply_payload stamp nid (hw_bench hwbench) expose node c = do
    let (node', old) =
        Node.update_hwbench
          (record {
            cpu_hashrate_score = hwbench.cpu_hashrate_score;
            memory_memcpy_score = hwbench.memory_memcpy_score;
            disk_sequential_write_score = hwbench.disk_sequential_write_score;
            disk_random_write_score = hwbench.disk_random_write_score;
          })
          node
    collator ←
        ChainStats.update_hwbench f64 old decrement c.stats_collator
        >>= ChainStats.update_hwbench f64 node'.hwbench increment
    let (c', feed) =
        finalize nid (finalized_block (hw_bench hwbench)) node'
          (record c { stats_collator = collator })
    ok (c', (if expose then Feed.added_node nid node' expose ∷ [] else []) ++ feed)
  apply_payload stamp nid payload expose node c = ok (finalize nid (finalized_block payload) node c)

  -- The chain and the feed are those that `handle_block` leaves.
  update_found : ℕ → ℕ → Payload → Bool → Chain → Feed → Run (Chain × Feed)
  unfolding apply_payload
  update_found stamp nid payload expose c feed = elim (DenseMap.get c.nodes nid) [
    | none ↦ ok (c, feed)
    | some node ↦ do
      (c', feed') ← apply_payload stamp nid payload expose node c
      ok (c', feed ++ feed')
  ]

  pub update_node : Readings → ℕ → Payload → Bool → Chain → Run (Chain × Feed)
  unfolding update_found
  update_node readings nid payload expose c = do
    (c1, feed1) ← handle_best readings (NodeMessage.best_block payload) nid c
    update_found readings.stamp nid payload expose c1 feed1
