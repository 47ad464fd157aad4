-- ===== src/Shard/CoreConnection/Examples.antt =====
-- backend/telemetry_shard/src/connection.rs, on concrete input: a connection that is lost, after an
-- attempt that failed, with numbers of one byte for the messages.
use substrate_telemetry.Prelude.{
  ℕ, refl, true, false, Option, none, some, List, [], ◌∷◌, Text, Returns,
}
use substrate_telemetry.Shard.CoreConnection.{
  Event, arrives, wake, attempt, from_core, from_aggregator, Codec, start, run,
}
use substrate_telemetry.Shard.CoreConnection.Alternation.{Follows, run-Follows}

abbrev first_byte : Text → Option ℕ
first_byte [] = none
first_byte (b ∷ bytes) = some b

abbrev codec : Codec ℕ ℕ
codec = record { serialize = λ n. some (n ∷ []); deserialize = first_byte }

abbrev events : List (Event ℕ)
events =
    wake
    ∷ attempt false true
    ∷ arrives 4
    ∷ wake
    ∷ attempt true true
    ∷ arrives 5
    ∷ from_aggregator true true
    ∷ from_core (some (7 ∷ [])) true
    ∷ from_core none true
    ∷ []

run-Follows_example : Returns (run codec events start) (Follows codec false)
run-Follows_example =
    run-Follows codec events (tt, (tt, (refl, (tt, (tt, (refl, (tt, (refl, (tt, tt)))))))))
