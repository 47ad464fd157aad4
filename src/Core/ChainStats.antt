-- ===== src/Core/ChainStats.antt =====
-- backend/telemetry_core/src/state/chain_stats.rs: what the nodes of a chain run on. The operations
-- of floats are a parameter.
pub mod Buckets
pub mod Samples
mod Examples
use substrate_telemetry.Prelude.{
  ℕ, ◌*◌, ◌/◌, Bool, true, false, ◌&&◌, ◌||◌, Option, none, some, List, [], ◌∷◌, and_then,
  map_option, Text, Bucket, text_key, bucket_key, bool_key, nat_key, ltb, ◌==◌, if◌then◌else◌, Run,
  ok, ◌>>=◌,
}
use substrate_telemetry.Common.NodeTypes.{NodeDetails, NodeHwBench}
use substrate_telemetry.Core.Counter.{
  Counter, CounterValue, Ranking, modify, generate_ranking_top, generate_ranking_ordered,
}
use substrate_telemetry.Core.Counter

abbrev pub reference_cpu_score : ℕ
reference_cpu_score = 1028

abbrev pub reference_memory_score : ℕ
reference_memory_score = 14899

abbrev pub reference_disk_sequential_write_score : ℕ
reference_disk_sequential_write_score = 485

abbrev pub reference_disk_random_write_score : ℕ
reference_disk_random_write_score = 222

-- The macro `buckets!`, on the bucket that starts at `lower` and the bounds above it.
pub buckets : ℕ → ℕ → List ℕ → Bucket
buckets value lower [] = (lower, none)
buckets value lower (upper ∷ remaining) =
    if ltb value upper then (lower, some upper) else buckets value upper remaining

abbrev pub score_bounds : List ℕ
score_bounds = 10 ∷ 30 ∷ 50 ∷ 70 ∷ 90 ∷ 110 ∷ 130 ∷ 150 ∷ 200 ∷ 300 ∷ 400 ∷ 500 ∷ []

abbrev pub memory_bounds : List ℕ
memory_bounds = 2 ∷ 4 ∷ 6 ∷ 8 ∷ 10 ∷ 16 ∷ 24 ∷ 32 ∷ 48 ∷ 56 ∷ 64 ∷ []

-- The operations of `f64` that a score is reckoned with.
pub record F64 : Type 0 where
  pub from_u64 : ℕ → ℕ
  pub divided : ℕ → ℕ → ℕ
  pub times : ℕ → ℕ → ℕ
  -- `100.0`
  pub hundred : ℕ
  pub as_u32 : ℕ → ℕ

-- `((score as f64 / reference_score as f64) * 100.0) as u32`
pub relative_score : F64 → ℕ → ℕ → ℕ
relative_score f64 score reference_score =
    f64.as_u32
      (f64.times (f64.divided (f64.from_u64 score) (f64.from_u64 reference_score)) f64.hundred)

pub bucket_score : F64 → ℕ → ℕ → Bucket
unfolding relative_score
bucket_score f64 score reference_score =
    buckets (relative_score f64 score reference_score) 0 score_bounds

pub bucket_memory : ℕ → Bucket
bucket_memory memory = buckets (memory / (1024 * 1024) / 1000) 1 memory_bounds

pub record ChainStatsCollator : Type 0 where
  pub version : Counter Text
  pub target_os : Counter Text
  pub target_arch : Counter Text
  pub cpu : Counter Text
  pub memory : Counter Bucket
  pub core_count : Counter ℕ
  pub linux_kernel : Counter Text
  pub linux_distro : Counter Text
  pub is_virtual_machine : Counter Bool
  pub cpu_hashrate_score : Counter Bucket
  pub memory_memcpy_score : Counter Bucket
  pub disk_sequential_write_score : Counter Bucket
  pub disk_random_write_score : Counter Bucket

-- `feed_message.rs`
pub record ChainStats : Type 0 where
  pub version : Ranking Text
  pub target_os : Ranking Text
  pub target_arch : Ranking Text
  pub cpu : Ranking Text
  pub memory : Ranking Bucket
  pub core_count : Ranking ℕ
  pub linux_kernel : Ranking Text
  pub linux_distro : Ranking Text
  pub is_virtual_machine : Ranking Bool
  pub cpu_hashrate_score : Ranking Bucket
  pub memory_memcpy_score : Ranking Bucket
  pub disk_sequential_write_score : Ranking Bucket
  pub disk_random_write_score : Ranking Bucket

-- `ChainStatsCollator::default()`
pub default : ChainStatsCollator
default = record {
  version = Counter.default;
  target_os = Counter.default;
  target_arch = Counter.default;
  cpu = Counter.default;
  memory = Counter.default;
  core_count = Counter.default;
  linux_kernel = Counter.default;
  linux_distro = Counter.default;
  is_virtual_machine = Counter.default;
  cpu_hashrate_score = Counter.default;
  memory_memcpy_score = Counter.default;
  disk_sequential_write_score = Counter.default;
  disk_random_write_score = Counter.default;
}

-- The arguments that the four scores are counted under.
module _ (f64 : F64) where
  pub cpu_hashrate_key : Option NodeHwBench → Option Bucket
  cpu_hashrate_key =
      map_option λ hwbench. bucket_score f64 hwbench.cpu_hashrate_score reference_cpu_score

  pub memory_memcpy_key : Option NodeHwBench → Option Bucket
  memory_memcpy_key =
      map_option λ hwbench. bucket_score f64 hwbench.memory_memcpy_score reference_memory_score

  pub disk_sequential_write_key : Option NodeHwBench → Option Bucket
  disk_sequential_write_key hwbench =
      map_option (λ score. bucket_score f64 score reference_disk_sequential_write_score)
        (and_then hwbench (λ hwbench. hwbench.disk_sequential_write_score))

  pub disk_random_write_key : Option NodeHwBench → Option Bucket
  disk_random_write_key hwbench =
      map_option (λ score. bucket_score f64 score reference_disk_random_write_score)
        (and_then hwbench (λ hwbench. hwbench.disk_random_write_score))

  pub update_hwbench :
      Option NodeHwBench → CounterValue → ChainStatsCollator → Run ChainStatsCollator
  update_hwbench hwbench op c = do
    cpu_hashrate_score ← modify (cpu_hashrate_key hwbench) op c.cpu_hashrate_score
    memory_memcpy_score ← modify (memory_memcpy_key hwbench) op c.memory_memcpy_score
    disk_sequential_write_score ←
        modify (disk_sequential_write_key hwbench) op c.disk_sequential_write_score
    disk_random_write_score ← modify (disk_random_write_key hwbench) op c.disk_random_write_score
    ok (record c {
      cpu_hashrate_score = cpu_hashrate_score;
      memory_memcpy_score = memory_memcpy_score;
      disk_sequential_write_score = disk_sequential_write_score;
      disk_random_write_score = disk_random_write_score;
    })

  -- `add_or_remove_node`, but for its last call, `update_hwbench`.
  pub modify_details : NodeDetails → CounterValue → ChainStatsCollator → Run ChainStatsCollator
  modify_details details op c = do
    version ← modify (some details.version) op c.version
    target_os ← modify details.target_os op c.target_os
    target_arch ← modify details.target_arch op c.target_arch
    cpu ← modify (and_then details.sysinfo (λ s. s.cpu)) op c.cpu
    memory ← modify (and_then details.sysinfo (λ s. map_option bucket_memory s.memory)) op c.memory
    core_count ← modify (and_then details.sysinfo (λ s. s.core_count)) op c.core_count
    linux_kernel ← modify (and_then details.sysinfo (λ s. s.linux_kernel)) op c.linux_kernel
    linux_distro ← modify (and_then details.sysinfo (λ s. s.linux_distro)) op c.linux_distro
    is_virtual_machine ←
        modify (and_then details.sysinfo (λ s. s.is_virtual_machine)) op c.is_virtual_machine
    ok (record c {
      version = version;
      target_os = target_os;
      target_arch = target_arch;
      cpu = cpu;
      memory = memory;
      core_count = core_count;
      linux_kernel = linux_kernel;
      linux_distro = linux_distro;
      is_virtual_machine = is_virtual_machine;
    })

  pub add_or_remove_node :
      NodeDetails → Option NodeHwBench → CounterValue → ChainStatsCollator → Run ChainStatsCollator
  add_or_remove_node details hwbench op c = do
    c' ← modify_details details op c
    update_hwbench hwbench op c'

-- The strict orders that the derived `Ord` of a range and of a `bool` gives.
abbrev pub option_less : Option ℕ → Option ℕ → Bool
option_less none none = false
option_less none (some b) = true
option_less (some a) none = false
option_less (some a) (some b) = ltb a b

abbrev pub bucket_less : Bucket → Bucket → Bool
bucket_less a b = ltb a.0 b.0 || (a.0 == b.0 && option_less a.1 b.1)

abbrev pub bool_less : Bool → Bool → Bool
bool_less false true = true
bool_less _ _ = false

pub generate : ChainStatsCollator → ChainStats
generate c = record {
  version = generate_ranking_top c.version 10;
  target_os = generate_ranking_top c.target_os 10;
  target_arch = generate_ranking_top c.target_arch 10;
  cpu = generate_ranking_top c.cpu 10;
  memory = generate_ranking_ordered bucket_less c.memory;
  core_count = generate_ranking_top c.core_count 10;
  linux_kernel = generate_ranking_top c.linux_kernel 10;
  linux_distro = generate_ranking_top c.linux_distro 10;
  is_virtual_machine = generate_ranking_ordered bool_less c.is_virtual_machine;
  cpu_hashrate_score = generate_ranking_top c.cpu_hashrate_score 10;
  memory_memcpy_score = generate_ranking_ordered bucket_less c.memory_memcpy_score;
  disk_sequential_write_score = generate_ranking_ordered bucket_less c.disk_sequential_write_score;
  disk_random_write_score = generate_ranking_ordered bucket_less c.disk_random_write_score;
}
