-- ===== src/Core/Chain/Stale.antt =====
-- backend/telemetry_core/src/state/chain.rs: `update_stale_nodes`, which looks for a new best block
-- when none has come in for a while, and `regenerate_stats_if_necessary`.
pub mod Aging
pub mod Freshness
use substrate_telemetry.Prelude.{
  ℕ, suc, ◌-◌, ite, ◌&&◌, Option, none, some, List, [], ◌∷◌, ◌++◌, unwrap_or, ltb, ◌==◌,
  if◌then◌else◌, sub64, ℕ_discrete,
}
use substrate_telemetry.Common.DenseMap
use substrate_telemetry.Common.MostSeen
use substrate_telemetry.Common.NumStats.{NumStats}
use substrate_telemetry.Common.NumStats
use substrate_telemetry.Common.NodeMessage
use substrate_telemetry.Common.NodeTypes.{Block, Timestamp, zero_block}
use substrate_telemetry.Core.ChainStats.{ChainStats}
use substrate_telemetry.Core.ChainStats
use substrate_telemetry.Core.Node.{Node}
use substrate_telemetry.Core.Node
use substrate_telemetry.Core.Feed.{Feed}
use substrate_telemetry.Core.Feed
use substrate_telemetry.Core.Chain.{Chain, stale_timeout, stats_update_interval}

-- What `update_stale_nodes` gathers while it goes over the nodes.
pub record Survey : Type 0 where
  pub best : Block
  pub finalized : Block
  pub timestamp : Option Timestamp
  pub feed : Feed

-- The body of the loop.
pub survey_node : ℕ → ℕ → Node → Survey → Node × Survey
survey_node threshold nid node s =
    let (node', stale) = Node.update_stale threshold node in
    (
      node',
      (if stale then record s { feed = s.feed ++ Feed.stale_node nid ∷ [] } else record {
        best = if ltb s.best.height node'.best.block.height then node'.best.block else s.best;
        timestamp =
            if ltb s.best.height node'.best.block.height
            then some node'.best.block_timestamp
            else s.timestamp;
        finalized =
            if ltb s.finalized.height node'.finalized.height then node'.finalized else s.finalized;
        feed = s.feed;
      }),
    )

-- The loop, over the slots from `nid` on.
pub survey_nodes : ℕ → ℕ → List (Option Node) → Survey → List (Option Node) × Survey
survey_nodes threshold nid [] s = ([], s)
survey_nodes threshold nid (none ∷ slots) s =
    let (slots', s') = survey_nodes threshold (suc nid) slots s in (none ∷ slots', s')
survey_nodes threshold nid (some node ∷ slots) s =
    let (node', s') = survey_node threshold nid node s in
    let (slots', s'') = survey_nodes threshold (suc nid) slots s' in (some node' ∷ slots', s'')

abbrev pub empty_survey : Survey
empty_survey = record { best = zero_block; finalized = zero_block; timestamp = none; feed = [] }

-- `update_stale_nodes`, for a chain whose last best block is out of range.
pub refresh : ℕ → ℕ → Chain → Chain × Feed
refresh now threshold c =
    let (slots, s) = survey_nodes threshold 0 c.nodes.items empty_survey in
    let c' = record c { nodes = record (c.nodes) { items = slots } } in
    if c.best.height == 0 && c.finalized.height == 0 then (c', s.feed) else (
      record c' {
        best = s.best;
        finalized = s.finalized;
        block_times = NumStats.reset c.block_times;
        timestamp = s.timestamp;
      },
      s.feed
          ++ Feed.best_block s.best.height (unwrap_or s.timestamp now) none
            ∷ Feed.best_finalized s.finalized.height s.finalized.hash
            ∷ [],
    )

-- The early returns of `update_stale_nodes`, on the time of the chain's last best block.
refresh_unless_recent : ℕ → Chain → Option Timestamp → Chain × Feed
refresh_unless_recent now c none = (c, [])
refresh_unless_recent now c (some timestamp) =
    if ltb (sub64 now stale_timeout) timestamp
    then (c, [])
    else refresh now (sub64 now stale_timeout) c

pub update_stale_nodes : ℕ → Chain → Chain × Feed
unfolding refresh_unless_recent
update_stale_nodes now c = refresh_unless_recent now c c.timestamp

-- The equality of `ChainStats`.
ChainStats_discrete : Discrete ChainStats
ChainStats_discrete = hlevel ℕ_discrete

pub regenerate_stats_if_necessary : ℕ → Chain → Chain × Feed
regenerate_stats_if_necessary instant c =
    if ltb (instant - c.stats_last_regenerated) stats_update_interval
    then (c, [])
    else (let new_stats = ChainStats.generate c.stats_collator in
        let c' = record c { stats_last_regenerated = instant } in
        ite (ChainStats_discrete new_stats c.stats) (c', [])
          (record c' { stats = new_stats }, Feed.chain_stats_update new_stats ∷ []))
