-- ===== src/Common/MostSeen/Examples.antt =====
-- Runs of the functions of `MostSeen`, and its theorems on one value.
use substrate_telemetry.Prelude.{ℕ, [], ◌∷◌, text_key, bucket_key, bool_key, nat_key}
use substrate_telemetry.Prelude.HashMap
use substrate_telemetry.Common.MostSeen.{MostSeen}

-- Item 1 was seen three times, item 2 twice.
abbrev seen : MostSeen ℕ
seen = record { current_best = 1; current_count = 3; others = (2, 2) ∷ [] }
