-- ===== src/Core/ChainStats/Examples.antt =====
-- The theorems on the statistics, on those of one node.
use native.Mathlib.Nat.{le-div_iff_mul-le, div-mul-le_self, mul-div_cancel}
use substrate_telemetry.Prelude.{
  ℕ, ◌+◌, ◌≤◌, refl, arith, ◌*◌, ◌/◌, none, some, [], ◌∷◌, here, Returns,
}
use substrate_telemetry.Common.NodeTypes.{NodeDetails}
use substrate_telemetry.Core.Counter.{increment}
use substrate_telemetry.Core.ChainStats.{
  F64, add_or_remove_node, bucket_score, default, reference_cpu_score, score_bounds,
}
use substrate_telemetry.Core.ChainStats.Buckets.{
  InBucket, OneOf, ranges, IsF64, bucket_score-InBucket,
}
use substrate_telemetry.Core.ChainStats.Samples.{
  HoldsSamples, Sample, add_or_remove_node-HoldsSamples, default-HoldsSamples,
}

-- Numbers with three decimal places.
abbrev percentage : F64
percentage = record {
  from_u64 = λ n. n * 1000;
  divided = λ a b. a * 1000 / b;
  times = λ a b. a * b / 1000;
  hundred = 100000;
  as_u32 = λ n. n / 1000;
}

abbrev details : NodeDetails
details = record {
  chain = 65 ∷ [];
  name = 66 ∷ [];
  implementation = [];
  version = 49 ∷ [];
  validator = none;
  network_id = [];
  startup_time = none;
  target_os = some (76 ∷ []);
  target_arch = none;
  target_env = none;
  sysinfo = none;
  ip = none;
}

abbrev sample : Sample
sample = (details, none)

add_or_remove_node-HoldsSamples_example :
    Returns
      (add_or_remove_node percentage details none increment default)
      (λ c. HoldsSamples percentage c (sample ∷ []))
add_or_remove_node-HoldsSamples_example =
    add_or_remove_node-HoldsSamples percentage increment details none [] (sample ∷ []) default
      (default-HoldsSamples percentage) here

-- Whole numbers, whose quotients are rounded down.
abbrev whole : F64
whole = record {
  from_u64 = λ n. n;
  divided = λ a b. a / b;
  times = λ a b. a * b;
  hundred = 100;
  as_u32 = λ n. n;
}

whole-IsF64 : IsF64 whole (λ m n. m ≤ n)
whole-IsF64 = record {
  from_u64_mono = λ m n h. h;
  divided_mono = λ a b n pos h. (le-div_iff_mul-le pos).1 (omega (arith, div-mul-le_self a n, h));
  times_mono = λ a b h. omega arith;
  as_u32_mono = λ a b h. h;
  quotient = λ k n pos h. mul-div_cancel k pos;
  product = λ k h. refl;
  as_u32_exact = λ n h. refl;
}

bucket_score-InBucket_example :
    (percentage : ℕ) × (1 * 100 ≤ percentage)
    × (percentage ≤ (1 + 1) * 100)
    × InBucket percentage (bucket_score whole 1500 reference_cpu_score)
    × OneOf (bucket_score whole 1500 reference_cpu_score) (ranges 0 score_bounds)
bucket_score-InBucket_example =
    bucket_score-InBucket whole (λ m n. m ≤ n) whole-IsF64 1 1500 reference_cpu_score (omega arith)
      (omega arith) (omega arith) (omega arith) (omega arith)
