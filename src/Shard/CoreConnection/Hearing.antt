-- ===== src/Shard/CoreConnection/Hearing.antt =====
-- backend/telemetry_shard/src/connection.rs: what the aggregator may hear of the connection.
use substrate_telemetry.Prelude.{◌≡◌, Bool, true, false, List, [], ◌∷◌, ◌++◌, Text}
use substrate_telemetry.Shard.CoreConnection.{
  connected, disconnected, payload, Phase, pausing, connecting, forwarding, ended, Effect,
  to_aggregator, to_core,
}

-- What the aggregator may hear next, and to which end, where the connection is up or down: that it is
-- up if it was down, and messages of the core, or that it is down, if it was up.
pub data Heard {Out : Type 0} : Bool → List (Effect Out) → Bool → Type 0 where
  nothing : {up : Bool} → Heard up [] up
  comes_up :
      {rest : List (Effect Out)} {end : Bool}
      → Heard true rest end
      → Heard false (to_aggregator connected ∷ rest) end
  goes_down :
      {rest : List (Effect Out)} {end : Bool}
      → Heard false rest end
      → Heard true (to_aggregator disconnected ∷ rest) end
  delivers :
      (msg : Out) {rest : List (Effect Out)} {end : Bool}
      → Heard true rest end
      → Heard true (to_aggregator (payload msg) ∷ rest) end
  sends :
      (bytes : Text) {rest : List (Effect Out)} {end : Bool}
      → Heard true rest end
      → Heard true (to_core bytes ∷ rest) end

pub Heard-trans :
    {Out : Type 0} {a b c : Bool} {xs ys : List (Effect Out)}
    → Heard a xs b
    → Heard b ys c
    → Heard a (xs ++ ys) c
Heard-trans nothing k = k
Heard-trans (comes_up h) k = comes_up (Heard-trans h k)
Heard-trans (goes_down h) k = goes_down (Heard-trans h k)
Heard-trans (delivers msg h) k = delivers msg (Heard-trans h k)
Heard-trans (sends bytes h) k = sends bytes (Heard-trans h k)

-- In which phases the connection is up, as the task and the aggregator see it; once the task has
-- returned it does not matter.
abbrev pub Agree : Phase → (is_connected up : Bool) → Type 0
Agree pausing c up = (c ≡ false) × (up ≡ false)
Agree connecting c up = (c ≡ false) × (up ≡ false)
Agree forwarding c up = (c ≡ true) × (up ≡ true)
Agree ended c up = Unit
