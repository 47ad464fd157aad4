-- ===== src/Core/Counter/Examples.antt =====
-- The theorems on `Counter`, on counters of numbers.
use substrate_telemetry.Prelude.{
  ℕ, some, [], ◌∷◌, text_key, bucket_key, bool_key, nat_key, here, Returns,
}
use substrate_telemetry.Core.Counter.{Counter, increment, modify}
use substrate_telemetry.Core.Counter
use substrate_telemetry.Core.Counter.Tally.{Holds, default-Holds, modify-Holds}

abbrev empty : Counter ℕ
empty = Counter.default

modify-Holds_example : Returns (modify (some 4) increment empty) (λ c. Holds c (some 4 ∷ []))
modify-Holds_example = modify-Holds increment (some 4) empty [] (some 4 ∷ []) default-Holds here
