-- ===== src/Core/Chain.antt =====
-- backend/telemetry_core/src/state/chain.rs: the nodes of one chain, its best and finalized block, its
-- label and its statistics. A method that is given a feed returns what it pushes onto it. The two
-- clocks that a call reads are arguments, and so is the float arithmetic of the measurements.
pub mod Validity
pub mod Membership
pub mod Stale
pub mod Blocks
pub mod Payloads
mod Examples
use substrate_telemetry.Prelude.{
  ℕ, ◌*◌, Bool, true, false, ◌||◌, Option, none, some, List, [], ◌∷◌, Text, text_key, bucket_key,
  bool_key, nat_key, leb, ◌==◌, if◌then◌else◌, Run, ok, ◌>>=◌,
}
use substrate_telemetry.Common.DenseMap.{DenseMap}
use substrate_telemetry.Common.DenseMap
use substrate_telemetry.Common.MostSeen.{MostSeen, has_changed}
use substrate_telemetry.Common.MostSeen
use substrate_telemetry.Common.NumStats.{NumStats}
use substrate_telemetry.Common.NumStats
use substrate_telemetry.Common.NodeMessage
use substrate_telemetry.Common.NodeTypes.{Block, BlockHash, Location, Timestamp, zero_block}
use substrate_telemetry.Core.Counter.{Ranking, increment, decrement}
use substrate_telemetry.Core.ChainStats.{ChainStats, ChainStatsCollator, F64}
use substrate_telemetry.Core.ChainStats
use substrate_telemetry.Core.Node.{Node}
use substrate_telemetry.Core.Node
use substrate_telemetry.Core.Feed

-- In milliseconds.
abbrev pub stale_timeout : ℕ
stale_timeout = 2 * 60 * 1000

-- In nanoseconds, as an `Instant` is.
abbrev pub stats_update_interval : ℕ
stats_update_interval = 5 * 1000000000

pub record Chain : Type 0 where
  pub labels : MostSeen Text
  pub nodes : DenseMap Node
  pub best : Block
  pub finalized : Block
  pub block_times : NumStats
  pub average_block_time : Option ℕ
  pub timestamp : Option Timestamp
  pub genesis_hash : BlockHash
  pub max_nodes : ℕ
  pub stats_collator : ChainStatsCollator
  pub stats : ChainStats
  pub stats_last_regenerated : ℕ

pub data AddNodeResult : Type 0 where
  overquota : AddNodeResult
  added : ℕ → Bool → AddNodeResult

pub record RemoveNodeResult : Type 0 where
  pub chain_renamed : Bool

-- What a call reads from outside: `time::now()` for the block and for the chart, and
-- `Instant::now()`.
pub record Readings : Type 0 where
  pub now : ℕ
  pub instant : ℕ
  pub stamp : ℕ

-- The genesis hashes of Polkadot, Kusama, Westend and Rococo.
abbrev pub first_party_networks : List BlockHash
first_party_networks =
    65898879916156660633689554636054373504857665774380307398468736348728318660803
    ∷ 79905358795125744727198700255385147565581452014786019279719856996909718952702
    ∷ 101890441417334849399309773675792142855793572010125704983321644264528308027966
    ∷ 111681686806487495449236339868292518688966886897156079503767183819073638141850 ∷ []

pub is_first_party_network : BlockHash → Bool
is_first_party_network genesis_hash = among first_party_networks
  where
    among : List BlockHash → Bool
    among [] = false
    among (h ∷ hs) = h == genesis_hash || among hs

-- The default of a `Ranking`, and that of `ChainStats`.
abbrev pub no_ranking : {K : Type 0} → Ranking K
no_ranking = record { list = []; other = 0; unknown = 0 }

abbrev pub no_stats : ChainStats
no_stats = record {
  version = no_ranking;
  target_os = no_ranking;
  target_arch = no_ranking;
  cpu = no_ranking;
  memory = no_ranking;
  core_count = no_ranking;
  linux_kernel = no_ranking;
  linux_distro = no_ranking;
  is_virtual_machine = no_ranking;
  cpu_hashrate_score = no_ranking;
  memory_memcpy_score = no_ranking;
  disk_sequential_write_score = no_ranking;
  disk_random_write_score = no_ranking;
}

pub new : BlockHash → ℕ → ℕ → Chain
new genesis_hash max_nodes instant = record {
  labels = MostSeen.default [];
  nodes = DenseMap.new;
  best = zero_block;
  finalized = zero_block;
  block_times = NumStats.new 50;
  average_block_time = none;
  timestamp = none;
  genesis_hash = genesis_hash;
  max_nodes = max_nodes;
  stats_collator = ChainStats.default;
  stats = no_stats;
  stats_last_regenerated = instant;
}

pub is_overquota : Chain → Bool
is_overquota c = leb c.max_nodes (DenseMap.len c.nodes)

pub label : Chain → Text
label c = c.labels.current_best

unfoldable pub get_node : Chain → ℕ → Option Node
get_node c id = DenseMap.get c.nodes id

pub node_count : Chain → ℕ
node_count c = DenseMap.len c.nodes

module _ (f64 : F64) where
  pub add_node : Node → Chain → Run (Chain × AddNodeResult)
  add_node node c = if is_overquota c then ok (c, overquota) else (do
    collator ← ChainStats.add_or_remove_node f64 node.details none increment c.stats_collator
    let (labels, changed) = MostSeen.insert node.details.chain c.labels
    (nodes, id) ← DenseMap.add c.nodes node
    ok (
      record c { stats_collator = collator; labels = labels; nodes = nodes },
      added id (has_changed changed),
    ))

  pub remove_node : ℕ → Chain → Run (Chain × RemoveNodeResult)
  remove_node id c =
      let (nodes, removed) = DenseMap.remove c.nodes id in
      elim removed [
        | none ↦ ok (c, record { chain_renamed = false })
        | some node ↦ do
          collator ←
              ChainStats.add_or_remove_node f64 node.details node.hwbench decrement c.stats_collator
          let (labels, changed) = MostSeen.remove node.details.chain c.labels
          ok (
            record c { nodes = nodes; stats_collator = collator; labels = labels },
            record { chain_renamed = has_changed changed },
          )
      ]

pub update_node_location : ℕ → Location → Chain → Chain × Bool
update_node_location id location c = elim (DenseMap.get c.nodes id) [
  | none ↦ (c, false)
  | some node ↦
      (record c { nodes = DenseMap.put c.nodes id (Node.update_location location node) }, true)
]
