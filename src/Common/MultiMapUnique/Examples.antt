-- ===== src/Common/MultiMapUnique/Examples.antt =====
-- backend/common/src/multi_map_unique.rs, on concrete input.
use substrate_telemetry.Prelude.{ℕ, ◌≡◌, ◌≢◌, some, [], ◌∷◌, List, and_then, nat_key}
use substrate_telemetry.Prelude.HashMap
use substrate_telemetry.Common.MultiMapUnique.{get_values}
use substrate_telemetry.Common.MultiMapUnique.Histories.{
  Operation, run, owner, put, take_out, get_values-run,
}
use substrate_telemetry.Common.MultiMapUnique.Refinement.{belongs}

-- The documentation's example: 1 and 2 under key 10, then 1 under key 20, then 2 removed.
abbrev history : List (Operation ℕ ℕ)
history = take_out 2 ∷ put 20 1 ∷ put 10 2 ∷ put 10 1 ∷ []

get_values-run_example :
    (and_then (get_values 20 (run history)) (HashMap.get 1) ≡ belongs (owner 1 history) 20)
    × (get_values 20 (run history) ≢ some [])
get_values-run_example = get_values-run history 20 1
