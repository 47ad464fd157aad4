-- ===== src/Core/State/Examples.antt =====
-- The theorems on states, on a state that one node joins.
use substrate_telemetry.Prelude.{
  refl, false, ◌+◌, ◌*◌, ◌/◌, ◌≡◌, true, none, [], ◌∷◌, Run, ok, panic, Returns,
}
use substrate_telemetry.Common.DenseMap.Contents.{get-new}
use substrate_telemetry.Common.MeanList.{Float}
use substrate_telemetry.Common.NodeMessage.{Payload, block_import}
use substrate_telemetry.Common.NodeTypes.{NodeDetails}
use substrate_telemetry.Core.ChainStats.{F64}
use substrate_telemetry.Core.Node.{Floats}
use substrate_telemetry.Core.Chain.{Chain, Readings}
use substrate_telemetry.Core.State.{
  AddNodeResult, NodeId, State, add_node, chain_on_deny_list, chain_over_quota, new,
  node_added_to_chain, remove_node, update_node,
}
use substrate_telemetry.Core.State.Index.{IsValid, new-IsValid}
use substrate_telemetry.Core.State.Presence.{stored, Alike, Without}
use substrate_telemetry.Core.State.Nodes.{
  Told, add_node-Told, denied, entered, full, remove_node-IsValid, update_node-IsValid,
}

abbrev pub numbers : Float
numbers = record {
  zero = 0;
  plus = λ a b. a + b;
  divided = λ a b. a / b;
  from_u8 = λ n. n;
  from_u64 = λ n. n;
}

abbrev pub floats : Floats
floats = record { f32 = numbers; f64 = numbers }

-- Numbers with three decimal places.
abbrev pub percentage : F64
percentage = record {
  from_u64 = λ n. n * 1000;
  divided = λ a b. a * 1000 / b;
  times = λ a b. a * b / 1000;
  hundred = 100000;
  as_u32 = λ n. n / 1000;
}

abbrev pub details : NodeDetails
details = record {
  chain = 65 ∷ [];
  name = 66 ∷ [];
  implementation = [];
  version = 49 ∷ [];
  validator = none;
  network_id = [];
  startup_time = none;
  target_os = none;
  target_arch = none;
  target_env = none;
  sysinfo = none;
  ip = none;
}

abbrev pub empty : State
empty = new ((70 ∷ []) ∷ []) 5

pub empty-IsValid : IsValid percentage empty
empty-IsValid = new-IsValid percentage ((70 ∷ []) ∷ []) 5

pub empty-stored : (id : NodeId) → stored empty id ≡ false
unfolding new
empty-stored id = rw (get-new {T = Chain} id.chain_id) refl

add_node-Told_example :
    Returns
      (add_node floats percentage 1000 0 7 details empty)
      (Told percentage floats 1000 7 details empty)
add_node-Told_example = add_node-Told percentage floats 1000 0 7 details empty empty-IsValid

-- The state after the node has joined, and the Id that it was given.
abbrev state_of : Run (State × AddNodeResult) → State
state_of (ok r) = r.0
state_of panic = empty

abbrev no_id : NodeId
no_id = record { chain_id = 0; chain_node_id = 0 }

abbrev reported : AddNodeResult → NodeId
reported chain_on_deny_list = no_id
reported chain_over_quota = no_id
reported (node_added_to_chain report) = report.id

abbrev id_of : Run (State × AddNodeResult) → NodeId
id_of (ok r) = reported r.1
id_of panic = no_id

abbrev one : State
one = state_of (add_node floats percentage 1000 0 7 details empty)

abbrev one_id : NodeId
one_id = id_of (add_node floats percentage 1000 0 7 details empty)

Told-IsValid :
    (r : State × AddNodeResult)
    → Told percentage floats 1000 7 details empty r
    → IsValid percentage r.0
Told-IsValid _ (denied h) = empty-IsValid
Told-IsValid _ (full s chain n i q v alike) = v
Told-IsValid _ (entered s report chain n i q v found genesis read node fresh others) = v

state_of-IsValid :
    (r : Run (State × AddNodeResult))
    → Returns r (Told percentage floats 1000 7 details empty)
    → IsValid percentage (state_of r)
state_of-IsValid (ok r) h = Told-IsValid r h
state_of-IsValid panic h = absurd h

one-IsValid : IsValid percentage one
one-IsValid =
    state_of-IsValid (add_node floats percentage 1000 0 7 details empty) add_node-Told_example

abbrev readings : Readings
readings = record { now = 1500000; instant = 6000000000; stamp = 1500000 }

abbrev payload : Payload
payload = block_import (record { hash = 11; height = 1 })

update_node-IsValid_example :
    Returns
      (update_node floats percentage readings one_id payload true one)
      (λ r. IsValid percentage r.0 × Alike one r.0)
update_node-IsValid_example =
    update_node-IsValid percentage floats readings one_id payload true one one-IsValid

remove_node-IsValid_example :
    Returns
      (remove_node percentage one_id one)
      (λ r. IsValid percentage r.0 × Without one_id one r.0)
remove_node-IsValid_example = remove_node-IsValid percentage one_id one one-IsValid
