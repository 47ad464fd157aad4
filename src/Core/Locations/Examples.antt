-- ===== src/Core/Locations/Examples.antt =====
-- backend/telemetry_core/src/find_location.rs, on concrete input: a database with one place for every
-- address of version 4, and two requests for one address that are answered in the other order.
use substrate_telemetry.Prelude.{
  ℕ, ◌≡◌, ◌*◌, ◌≤◌, length, replicate, Option, none, some, List, [], ◌∷◌,
}
use substrate_telemetry.Common.InternalMessages.{IpAddr, v4, v6}
use substrate_telemetry.Core.Locations.{
  Reader, City, Event, requested, resumed, localhost, start, run,
}
use substrate_telemetry.Core.Locations.Answering.{Settles, received, run-Settles}

abbrev lookup : IpAddr → Option City
lookup (v4 ip) = some (record {
  name = some (b'E' ∷ []);
  place = some (record { latitude = some 5; longitude = some 7 });
})
lookup (v6 ip) = none

abbrev reader : Reader
reader = record { lookup = lookup; as_f32 = λ n. n }

-- The tasks are kept with the newest first.
abbrev events : List (Event ℕ)
events =
    requested 1 (v4 9)
    ∷ requested 2 (v4 9)
    ∷ requested 3 localhost
    ∷ resumed 1
    ∷ resumed 2
    ∷ resumed 1
    ∷ resumed 2
    ∷ resumed 1
    ∷ resumed 0
    ∷ resumed 0
    ∷ []

run-Settles_example :
    Settles reader (received events) (run reader events start).0.tasks (run reader events start).1
    × ((n : ℕ)
        → 3 * length (run reader events start).0.tasks ≤ n
        → (run reader (replicate n (resumed 0)) (run reader events start).0).0.tasks ≡ [])
run-Settles_example = run-Settles reader events
