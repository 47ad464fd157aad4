-- ===== src/Common/NumStats.antt =====
-- backend/common/src/num_stats.rs, at `u64`, the type that a chain keeps block times in. Sums and
-- differences wrap around; the counter of pushes stays below 2^64.
pub mod History
use substrate_telemetry.Prelude.{
  ℕ, ◌+◌, ◌/◌, ◌%◌, List, map, ◌==◌, if◌then◌else◌, length, set, get_or, min, replicate, sum, Run,
  ok, panic, add64, sub64,
}

pub record NumStats : Type 0 where
  pub stack : List ℕ
  pub index : ℕ
  pub sum : ℕ

pub new : ℕ → NumStats
new size = record { stack = replicate size 0; index = 0; sum = 0 }

-- The remainder by a length of zero is a panic.
pub push : NumStats → ℕ → Run NumStats
push s val =
    if length s.stack == 0
    then panic
    else (let slot = s.index % length s.stack in
        ok (record {
          stack = set s.stack slot val;
          index = s.index + 1;
          sum = sub64 (add64 s.sum val) (get_or s.stack slot 0);
        }))

pub average : NumStats → ℕ
average s = let cap = min s.index (length s.stack) in if cap == 0 then 0 else s.sum / cap

pub reset : NumStats → NumStats
reset s = record { stack = map (λ _. 0) s.stack; index = 0; sum = 0 }
