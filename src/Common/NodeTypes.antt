-- ===== src/Common/NodeTypes.antt =====
-- backend/common/src/node_types.rs. Text is its bytes, a hash is the number that its 32 bytes write,
-- and a float is its bit pattern. Serialisation is left out.
use substrate_telemetry.Prelude.{ℕ, Bool, Option, none, Text}
use substrate_telemetry.Common.MeanList.{Float, MeanList}
use substrate_telemetry.Common.MeanList

abbrev pub BlockNumber : Type 0
BlockNumber = ℕ

abbrev pub Timestamp : Type 0
Timestamp = ℕ

abbrev pub BlockHash : Type 0
BlockHash = ℕ

pub record NodeSysInfo : Type 0 where
  pub cpu : Option Text
  pub memory : Option ℕ
  pub core_count : Option ℕ
  pub linux_kernel : Option Text
  pub linux_distro : Option Text
  pub is_virtual_machine : Option Bool

pub record NodeDetails : Type 0 where
  pub chain : Text
  pub name : Text
  pub implementation : Text
  pub version : Text
  pub validator : Option Text
  pub network_id : Text
  pub startup_time : Option Text
  pub target_os : Option Text
  pub target_arch : Option Text
  pub target_env : Option Text
  pub sysinfo : Option NodeSysInfo
  pub ip : Option Text

pub record NodeHwBench : Type 0 where
  pub cpu_hashrate_score : ℕ
  pub memory_memcpy_score : ℕ
  pub disk_sequential_write_score : Option ℕ
  pub disk_random_write_score : Option ℕ

pub record NodeStats : Type 0 where
  pub peers : ℕ
  pub txcount : ℕ

pub record NodeIo : Type 0 where
  pub used_state_cache_size : MeanList

pub record Block : Type 0 where
  pub hash : BlockHash
  pub height : BlockNumber

-- `Block::zero()`
abbrev pub zero_block : Block
zero_block = record { hash = 0; height = 0 }

pub record NodeHardware : Type 0 where
  pub upload : MeanList
  pub download : MeanList
  pub chart_stamps : MeanList

pub record NodeLocation : Type 0 where
  pub latitude : ℕ
  pub longitude : ℕ
  pub city : Text

-- `find_location::Location`
abbrev pub Location : Type 0
Location = Option NodeLocation

pub record BlockDetails : Type 0 where
  pub block : Block
  pub block_time : ℕ
  pub block_timestamp : ℕ
  pub propagation_time : Option ℕ

-- `BlockDetails::default()`; `now` is what `time::now()` returns.
unfoldable pub default_block_details : ℕ → BlockDetails
default_block_details now = record {
  block = zero_block;
  block_time = 0;
  block_timestamp = now;
  propagation_time = none;
}

abbrev pub default_stats : NodeStats
default_stats = record { peers = 0; txcount = 0 }

unfoldable pub default_io : Float → NodeIo
default_io f32 = record { used_state_cache_size = MeanList.default f32 }

unfoldable pub default_hardware : Float → NodeHardware
default_hardware f64 = record {
  upload = MeanList.default f64;
  download = MeanList.default f64;
  chart_stamps = MeanList.default f64;
}
