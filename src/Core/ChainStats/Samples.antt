-- ===== src/Core/ChainStats/Samples.antt =====
-- The collator counts exactly the nodes of its chain.
use substrate_telemetry.Prelude.{
  ℕ, ◌≡◌, refl, subst, sym, Bool, Option, none, some, List, [], map, and_then, map_option, Key,
  Text, Bucket, text_key, bucket_key, bool_key, nat_key, Split, Split-map, ok, ◌>>=◌, Returns,
  Run-cases,
}
use substrate_telemetry.Common.NodeTypes.{NodeDetails, NodeHwBench}
use substrate_telemetry.Core.Counter.{Counter, CounterValue, increment, decrement, modify}
use substrate_telemetry.Core.Counter.Tally.{Holds, default-Holds, Moves, modify-Holds, Holds-Split}
use substrate_telemetry.Core.ChainStats.{
  F64, bucket_memory, ChainStatsCollator, default, cpu_hashrate_key, memory_memcpy_key,
  disk_sequential_write_key, disk_random_write_key, update_hwbench, modify_details,
  add_or_remove_node,
}

-- What a node contributes to the statistics.
abbrev pub Sample : Type 0
Sample = NodeDetails × Option NodeHwBench

abbrev pub cpu_key : Sample → Option Text
cpu_key s = and_then s.0.sysinfo (λ i. i.cpu)

abbrev pub memory_key : Sample → Option Bucket
memory_key s = and_then s.0.sysinfo (λ i. map_option bucket_memory i.memory)

abbrev pub core_count_key : Sample → Option ℕ
core_count_key s = and_then s.0.sysinfo (λ i. i.core_count)

abbrev pub linux_kernel_key : Sample → Option Text
linux_kernel_key s = and_then s.0.sysinfo (λ i. i.linux_kernel)

abbrev pub linux_distro_key : Sample → Option Text
linux_distro_key s = and_then s.0.sysinfo (λ i. i.linux_distro)

abbrev pub is_virtual_machine_key : Sample → Option Bool
is_virtual_machine_key s = and_then s.0.sysinfo (λ i. i.is_virtual_machine)

-- The counters of a node's details hold the samples.
pub record HoldsDetails (c : ChainStatsCollator) (samples : List Sample) : Type 0 where
  pub version : Holds c.version (map (λ s. some s.0.version) samples)
  pub target_os : Holds c.target_os (map (λ s. s.0.target_os) samples)
  pub target_arch : Holds c.target_arch (map (λ s. s.0.target_arch) samples)
  pub cpu : Holds c.cpu (map cpu_key samples)
  pub memory : Holds c.memory (map memory_key samples)
  pub core_count : Holds c.core_count (map core_count_key samples)
  pub linux_kernel : Holds c.linux_kernel (map linux_kernel_key samples)
  pub linux_distro : Holds c.linux_distro (map linux_distro_key samples)
  pub is_virtual_machine : Holds c.is_virtual_machine (map is_virtual_machine_key samples)

-- What counting a sample in or out does to the list of samples.
abbrev pub MovesSample : CounterValue → Sample → List Sample → List Sample → Type 0
MovesSample increment s before after = Split s after before
MovesSample decrement s before after = Split s before after

MovesSample-map :
    {K : Type 0} ⦃key : Key K⦄ (f : Sample → Option K) (op : CounterValue) (s : Sample)
    (before after : List Sample)
    → MovesSample op s before after
    → Moves op (f s) (map f before) (map f after)
MovesSample-map f increment s before after m = Split-map f m
MovesSample-map f decrement s before after m = Split-map f m

module _ (f64 : F64) where
  -- The counters of the benchmark scores hold the samples.
  pub record HoldsScores (c : ChainStatsCollator) (samples : List Sample) : Type 0 where
    pub cpu_hashrate : Holds c.cpu_hashrate_score (map (λ s. cpu_hashrate_key f64 s.1) samples)
    pub memory_memcpy : Holds c.memory_memcpy_score (map (λ s. memory_memcpy_key f64 s.1) samples)
    pub disk_sequential_write :
        Holds c.disk_sequential_write_score (map (λ s. disk_sequential_write_key f64 s.1) samples)
    pub disk_random_write :
        Holds c.disk_random_write_score (map (λ s. disk_random_write_key f64 s.1) samples)

  module _ (op : CounterValue) (s : Sample) (before after : List Sample)
      (m : MovesSample op s before after) where
    counted :
        {K : Type 0} ⦃key : Key K⦄ (f : Sample → Option K) (c : Counter K)
        → Holds c (map f before)
        → (c' : Counter K) × (modify (f s) op c ≡ ok c') × Holds c' (map f after)
    counted f c h =
        Run-cases (λ c'. Holds c' (map f after)) (modify (f s) op c)
          (modify-Holds op (f s) c (map f before) (map f after) h
            (MovesSample-map f op s before after m))

    -- `update_hwbench` does not panic, and touches the scores alone.
    update_hwbench-HoldsScores :
        (c : ChainStatsCollator)
        → HoldsScores c before
        → Returns (update_hwbench f64 s.1 op c) (λ c'.
          HoldsScores c' after × ((ds : List Sample) → HoldsDetails c ds → HoldsDetails c' ds))
    unfolding update_hwbench
    update_hwbench-HoldsScores c h =
        let (c1, e1, h1) =
          counted (λ s. cpu_hashrate_key f64 s.1) c.cpu_hashrate_score h.cpu_hashrate in
        let (c2, e2, h2) =
          counted (λ s. memory_memcpy_key f64 s.1) c.memory_memcpy_score h.memory_memcpy in
        let (c3, e3, h3) =
          counted (λ s. disk_sequential_write_key f64 s.1) c.disk_sequential_write_score
            h.disk_sequential_write in
        let (c4, e4, h4) =
          counted (λ s. disk_random_write_key f64 s.1) c.disk_random_write_score
            h.disk_random_write in
        rw (e1, e2, e3, e4)
          (
            record {
              cpu_hashrate = h1;
              memory_memcpy = h2;
              disk_sequential_write = h3;
              disk_random_write = h4;
            },
            λ ds d. record {
              version = d.version;
              target_os = d.target_os;
              target_arch = d.target_arch;
              cpu = d.cpu;
              memory = d.memory;
              core_count = d.core_count;
              linux_kernel = d.linux_kernel;
              linux_distro = d.linux_distro;
              is_virtual_machine = d.is_virtual_machine;
            },
          )

    -- The rest of `add_or_remove_node` does not panic, and touches the details alone.
    modify_details-HoldsDetails :
        (c : ChainStatsCollator)
        → HoldsDetails c before
        → Returns (modify_details f64 s.0 op c) (λ c'.
          HoldsDetails c' after × ((ds : List Sample) → HoldsScores c ds → HoldsScores c' ds))
    unfolding modify_details
    modify_details-HoldsDetails c h =
        let (c1, e1, h1) = counted (λ s. some s.0.version) c.version h.version in
        let (c2, e2, h2) = counted (λ s. s.0.target_os) c.target_os h.target_os in
        let (c3, e3, h3) = counted (λ s. s.0.target_arch) c.target_arch h.target_arch in
        let (c4, e4, h4) = counted cpu_key c.cpu h.cpu in
        let (c5, e5, h5) = counted memory_key c.memory h.memory in
        let (c6, e6, h6) = counted core_count_key c.core_count h.core_count in
        let (c7, e7, h7) = counted linux_kernel_key c.linux_kernel h.linux_kernel in
        let (c8, e8, h8) = counted linux_distro_key c.linux_distro h.linux_distro in
        let (c9, e9, h9) =
          counted is_virtual_machine_key c.is_virtual_machine h.is_virtual_machine in
        rw (e1, e2, e3, e4, e5, e6, e7, e8, e9)
          (
            record {
              version = h1;
              target_os = h2;
              target_arch = h3;
              cpu = h4;
              memory = h5;
              core_count = h6;
              linux_kernel = h7;
              linux_distro = h8;
              is_virtual_machine = h9;
            },
            λ ds d. record {
              cpu_hashrate = d.cpu_hashrate;
              memory_memcpy = d.memory_memcpy;
              disk_sequential_write = d.disk_sequential_write;
              disk_random_write = d.disk_random_write;
            },
          )

  -- All thirteen counters hold the samples.
  pub record HoldsSamples (c : ChainStatsCollator) (samples : List Sample) : Type 0 where
    pub details : HoldsDetails c samples
    pub scores : HoldsScores c samples

  -- Counting a node in, or one out that stands among the samples, does not panic, and all thirteen
  -- counters hold the samples with the node put in or taken out.
  pub add_or_remove_node-HoldsSamples :
      (op : CounterValue) (details : NodeDetails) (hwbench : Option NodeHwBench)
      (before after : List Sample) (c : ChainStatsCollator)
      → HoldsSamples c before
      → MovesSample op (details, hwbench) before after
      → Returns (add_or_remove_node f64 details hwbench op c) (λ c'. HoldsSamples c' after)
  unfolding add_or_remove_node
  add_or_remove_node-HoldsSamples op details hwbench before after c h m =
      let (c1, e1, d) =
        Run-cases _ (modify_details f64 details op c)
          (modify_details-HoldsDetails op (details, hwbench) before after m c h.details) in
      let (c2, e2, s) = Run-cases _ (update_hwbench f64 hwbench op c1) (
        update_hwbench-HoldsScores op (details, hwbench) before after m c1 (d.1 before h.scores)) in
      rw (e1, e2) (record { details = s.1 after d.0; scores = s.0 })

  -- The validator of a node is not counted.
  pub add_or_remove_node_validator :
      (details : NodeDetails) (hwbench : Option NodeHwBench) (op : CounterValue)
      (c : ChainStatsCollator)
      → add_or_remove_node f64 details hwbench op c
        ≡ add_or_remove_node f64 (record details { validator = none }) hwbench op c
  unfolding add_or_remove_node modify_details
  add_or_remove_node_validator details hwbench op c = refl

  -- The details of a sample do not depend on its benchmark.
  HoldsDetails-replace :
      (details : NodeDetails) (old new : Option NodeHwBench) {samples samples' less : List Sample}
      (c : ChainStatsCollator)
      → Split (details, old) samples less
      → Split (details, new) samples' less
      → HoldsDetails c samples
      → HoldsDetails c samples'
  HoldsDetails-replace details old new {samples} {samples'} {less} c s s' h = record {
    version = replace (λ s. some s.0.version) c.version refl h.version;
    target_os = replace (λ s. s.0.target_os) c.target_os refl h.target_os;
    target_arch = replace (λ s. s.0.target_arch) c.target_arch refl h.target_arch;
    cpu = replace cpu_key c.cpu refl h.cpu;
    memory = replace memory_key c.memory refl h.memory;
    core_count = replace core_count_key c.core_count refl h.core_count;
    linux_kernel = replace linux_kernel_key c.linux_kernel refl h.linux_kernel;
    linux_distro = replace linux_distro_key c.linux_distro refl h.linux_distro;
    is_virtual_machine =
        replace is_virtual_machine_key c.is_virtual_machine refl h.is_virtual_machine;
  }
    where
      replace :
          {K : Type 0} ⦃key : Key K⦄ (f : Sample → Option K) (k : Counter K)
          → f (details, old) ≡ f (details, new)
          → Holds k (map f samples)
          → Holds k (map f samples')
      replace f k e =
          Holds-Split (f (details, old)) k (Split-map f s)
            (subst (λ a. Split a (map f samples') (map f less)) (sym e) (Split-map f s'))

  -- `update_node` on a benchmark: the old scores are counted out and the new ones in, and then the
  -- counters hold the samples with the new benchmark in the place of the old.
  pub update_hwbench-HoldsSamples :
      (details : NodeDetails) (old new : Option NodeHwBench) (samples samples' less : List Sample)
      (c : ChainStatsCollator)
      → HoldsSamples c samples
      → Split (details, old) samples less
      → Split (details, new) samples' less
      → Returns
          (update_hwbench f64 old decrement c >>= update_hwbench f64 new increment)
          (λ c'. HoldsSamples c' samples')
  update_hwbench-HoldsSamples details old new samples samples' less c h s s' =
      let (c1, e1, r1) =
        Run-cases _ (update_hwbench f64 old decrement c)
          (update_hwbench-HoldsScores decrement (details, old) samples less s c h.scores) in
      let (c2, e2, r2) =
        Run-cases _ (update_hwbench f64 new increment c1)
          (update_hwbench-HoldsScores increment (details, new) less samples' s' c1 r1.0) in
      rw (e1, e2)
        (record {
          details =
              r2.1 samples' (r1.1 samples' (HoldsDetails-replace details old new c s s' h.details));
          scores = r2.0;
        })

  -- A fresh collator holds no sample.
  pub default-HoldsSamples : HoldsSamples default []
  unfolding default
  default-HoldsSamples = record {
    details = record {
      version = default-Holds;
      target_os = default-Holds;
      target_arch = default-Holds;
      cpu = default-Holds;
      memory = default-Holds;
      core_count = default-Holds;
      linux_kernel = default-Holds;
      linux_distro = default-Holds;
      is_virtual_machine = default-Holds;
    };
    scores = record {
      cpu_hashrate = default-Holds;
      memory_memcpy = default-Holds;
      disk_sequential_write = default-Holds;
      disk_random_write = default-Holds;
    };
  }
