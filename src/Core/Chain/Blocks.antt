-- ===== src/Core/Chain/Blocks.antt =====
-- backend/telemetry_core/src/state/chain.rs: `handle_block`, on the best block that a node reports.
pub mod Heights
use substrate_telemetry.Prelude.{
  ℕ, Option, none, some, [], ◌∷◌, ◌++◌, map_option, ltb, ◌==◌, if◌then◌else◌, Run, ok, ◌>>=◌,
  saturating_sub,
}
use substrate_telemetry.Common.DenseMap.{DenseMap}
use substrate_telemetry.Common.DenseMap
use substrate_telemetry.Common.MostSeen
use substrate_telemetry.Common.NumStats.{NumStats}
use substrate_telemetry.Common.NumStats
use substrate_telemetry.Common.NodeMessage
use substrate_telemetry.Common.NodeTypes.{Block, BlockDetails, Timestamp}
use substrate_telemetry.Core.ChainStats
use substrate_telemetry.Core.Node.{Node}
use substrate_telemetry.Core.Node
use substrate_telemetry.Core.Feed.{Feed}
use substrate_telemetry.Core.Feed
use substrate_telemetry.Core.Chain.{Chain, Readings}
use substrate_telemetry.Core.Chain.Stale.{regenerate_stats_if_necessary, update_stale_nodes}

-- `if let Some(timestamp) = self.timestamp { … }` of a new best block.
time_since : ℕ → Chain → Option Timestamp → Run Chain
time_since now c none = ok c
time_since now c (some timestamp) = do
  block_times ← NumStats.push c.block_times (saturating_sub now timestamp)
  ok (record c {
    block_times = block_times;
    average_block_time = some (NumStats.average block_times);
  })

-- The chain and the propagation time, after a node has a new block.
note_block : ℕ → Block → Chain → Run (Chain × Option ℕ × Feed)
unfolding time_since
note_block now block c =
    if ltb c.best.height block.height
    then (do
      c' ← time_since now c c.timestamp
      ok (
        record c' { best = block; timestamp = some now },
        some 0,
        Feed.best_block block.height now c'.average_block_time ∷ [],
      ))
    else ok (
      c,
      (if block.height == c.best.height then map_option (saturating_sub now) c.timestamp else none),
      [],
    )

-- `if let Some(details) = … { feed.push(ImportedBlock) }`
imported : ℕ → Option BlockDetails → Feed
imported nid none = []
imported nid (some details) = Feed.imported_block nid details ∷ []

-- The rest of `handle_block`, on the node that it finds.
import_block : ℕ → Block → ℕ → Node → Chain → Run (Chain × Feed)
unfolding note_block imported
import_block now block nid node c =
    let (node', newer) = Node.update_block block node in
    if newer
    then (do
      (c', propagation_time, feed) ← note_block now block c
      let (node'', details) = Node.update_details now propagation_time node'
      ok (record c' { nodes = DenseMap.put c'.nodes nid node'' }, feed ++ imported nid details))
    else ok (c, [])

pub handle_block : Readings → Block → ℕ → Chain → Run (Chain × Feed)
unfolding import_block
handle_block readings block nid c =
    let (c1, feed1) = update_stale_nodes readings.now c in
    let (c2, feed2) = regenerate_stats_if_necessary readings.instant c1 in
    elim (DenseMap.get c2.nodes nid) [
      | none ↦ ok (c2, feed1 ++ feed2)
      | some node ↦ do
        (c3, feed3) ← import_block readings.now block nid node c2
        ok (c3, feed1 ++ feed2 ++ feed3)
    ]

-- `if let Some(block) = payload.best_block() { self.handle_block(…) }`
pub handle_best : Readings → Option Block → ℕ → Chain → Run (Chain × Feed)
handle_best readings none nid c = ok (c, [])
handle_best readings (some block) nid c = handle_block readings block nid c
