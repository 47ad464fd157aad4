-- ===== src/Core/Node.antt =====
-- backend/telemetry_core/src/state/node.rs: one node of a chain. What `time::now()` returns is an
-- argument of each call that reads it.
pub mod Measurements
pub mod Blocks
use substrate_telemetry.Prelude.{
  ℕ, ite, Bool, true, false, ◌||◌, Option, none, some, and_then, Text, text_key, ltb, leb, ◌==◌,
  if◌then◌else◌, Run, ok, ◌>>=◌, add64, sub64,
}
use substrate_telemetry.Common.MeanList.{Float, MeanList}
use substrate_telemetry.Common.MeanList
use substrate_telemetry.Common.NodeMessage.{SystemInterval}
use substrate_telemetry.Common.NodeTypes.{
  Block, BlockDetails, Location, NodeDetails, NodeHardware, NodeHwBench, NodeIo, NodeStats,
  Timestamp, zero_block, default_block_details, default_stats, default_io, default_hardware,
}
use substrate_telemetry.Common.Parse.{parse_u64}

abbrev pub throttle_threshold : ℕ
throttle_threshold = 100

abbrev pub throttle_interval : ℕ
throttle_interval = 1000

pub record Node : Type 0 where
  pub details : NodeDetails
  pub stats : NodeStats
  pub io : NodeIo
  pub best : BlockDetails
  pub finalized : Block
  pub throttle : ℕ
  pub hardware : NodeHardware
  pub location : Location
  pub stale : Bool
  pub startup_time : Option Timestamp
  pub hwbench : Option NodeHwBench

-- The two float types of a node's measurements.
pub record Floats : Type 0 where
  pub f32 : Float
  pub f64 : Float

unfoldable pub new : Floats → ℕ → NodeDetails → Node
new floats now details = record {
  details = record details { startup_time = none };
  stats = default_stats;
  io = default_io floats.f32;
  best = default_block_details now;
  finalized = zero_block;
  throttle = 0;
  hardware = default_hardware floats.f64;
  location = none;
  stale = false;
  startup_time = and_then details.startup_time parse_u64;
  hwbench = none;
}

unfoldable pub update_location : Location → Node → Node
update_location location node = record node { location = location }

-- The new node, and the benchmark that was replaced.
unfoldable pub update_hwbench : NodeHwBench → Node → Node × Option NodeHwBench
update_hwbench hwbench node = (record node { hwbench = some hwbench }, node.hwbench)

pub update_block : Block → Node → Node × Bool
update_block block node =
    if ltb node.best.block.height block.height
    then (record node { stale = false; best = record (node.best) { block = block } }, true)
    else (node, false)

-- The details to send out, unless updates are throttled.
pub update_details : ℕ → Option ℕ → Node → Node × Option BlockDetails
update_details timestamp propagation_time node =
    let best = record (node.best) {
      block_time = sub64 timestamp node.best.block_timestamp;
      block_timestamp = timestamp;
      propagation_time = propagation_time;
    } in
    if ltb node.throttle timestamp
    then (
      record node {
        best = best;
        throttle =
            if leb best.block_time throttle_threshold
            then add64 timestamp throttle_interval
            else node.throttle;
      },
      some best,
    )
    else (record node { best = best }, none)

-- `changed |= list.push(value)`, if there is a value.
pub push_optional : Float → Option ℕ → MeanList → Run (MeanList × Bool)
push_optional float none list = ok (list, false)
push_optional float (some value) list = MeanList.push float list value

-- `now` is what `time::now()` returns for the stamp of the chart.
pub update_hardware : Floats → ℕ → SystemInterval → Node → Run (Node × Bool)
update_hardware floats now interval node = do
  (upload, upload_changed) ← push_optional floats.f64 interval.bandwidth_upload node.hardware.upload
  (download, download_changed) ←
      push_optional floats.f64 interval.bandwidth_download node.hardware.download
  (chart_stamps, _) ← MeanList.push floats.f64 node.hardware.chart_stamps (floats.f64.from_u64 now)
  ok (
    record node {
      hardware = record { upload = upload; download = download; chart_stamps = chart_stamps };
    },
    upload_changed || download_changed,
  )

-- `if let Some(new) = value { if new != old { old = new; changed = true; } }`
abbrev pub update_count : Option ℕ → ℕ → ℕ × Bool
update_count none old = (old, false)
update_count (some new) old = if new == old then (old, false) else (new, true)

pub update_stats : SystemInterval → Node → Node × Option NodeStats
update_stats interval node =
    let (peers, peers_changed) = update_count interval.peers node.stats.peers in
    let (txcount, txcount_changed) = update_count interval.txcount node.stats.txcount in
    let stats : NodeStats = record { peers = peers; txcount = txcount } in
    (record node { stats = stats }, (if peers_changed || txcount_changed then some stats else none))

pub update_io : Floats → SystemInterval → Node → Run (Node × Option NodeIo)
update_io floats interval node = do
  (size, changed) ←
      push_optional floats.f32 interval.used_state_cache_size node.io.used_state_cache_size
  let io : NodeIo = record { used_state_cache_size = size }
  ok (record node { io = io }, (if changed then some io else none))

pub update_finalized : Block → Node → Node × Option Block
update_finalized block node =
    if ltb node.finalized.height block.height
    then (record node { finalized = block }, some block)
    else (node, none)

unfoldable pub update_stale : ℕ → Node → Node × Bool
update_stale threshold node =
    if ltb node.best.block_timestamp threshold
    then (record node { stale = true }, true)
    else (node, node.stale)

-- `set_validator_address`, on the address that the node has.
change_validator : Text → Node → Option Text → Node × Bool
change_validator addr node none =
    (record node { details = record (node.details) { validator = some addr } }, true)
change_validator addr node (some old) =
    ite (text_key.dec old addr) (node, false)
      (record node { details = record (node.details) { validator = some addr } }, true)

-- Whether the address is another one than before.
pub set_validator_address : Text → Node → Node × Bool
unfolding change_validator
set_validator_address addr node = change_validator addr node node.details.validator
