-- ===== src/Core/Chain/Examples.antt =====
-- The theorems on chains, on a chain that one node joins, leaves and reports to.
use substrate_telemetry.Prelude.{
  ℕ, ◌+◌, ◌*◌, ◌/◌, ◌≡◌, refl, ◌∙◌, ◌⊎◌, inl, if_pos, true, none, some, [], ◌∷◌, arith, All, Run,
  ok, panic, Returns, ℕ_discrete,
}
use substrate_telemetry.Common.DenseMap.{DenseMap}
use substrate_telemetry.Common.DenseMap
use substrate_telemetry.Common.DenseMap.Allocation
use substrate_telemetry.Common.DenseMap.Contents.{contents}
use substrate_telemetry.Common.DenseMap.Allocation.{len-occupied}
use substrate_telemetry.Common.NodeTypes.{zero_block}
use substrate_telemetry.Core.ChainStats.{F64}
use substrate_telemetry.Core.Node.{Node, Floats}
use substrate_telemetry.Core.Node
use substrate_telemetry.Core.Chain.{
  AddNodeResult, Chain, add_node, added, get_node, node_count, overquota, remove_node,
}
use substrate_telemetry.Core.Chain
use substrate_telemetry.Common.MeanList.{Float}
use substrate_telemetry.Common.NodeMessage.{Payload, block_import}
use substrate_telemetry.Common.NodeTypes.{NodeDetails}
use substrate_telemetry.Core.Chain.{Readings}
use substrate_telemetry.Core.Chain.Validity.{IsUnder, IsValid, Kept}
use substrate_telemetry.Core.Chain.Validity
use substrate_telemetry.Core.Chain.Membership.{
  IsFresh, Joined, Left, add_node-Joined, joined, refused, new-IsFresh, remove_node-Left,
}
use substrate_telemetry.Core.Chain.Payloads.{update_node}
use substrate_telemetry.Core.Chain.Stale.{refresh, update_stale_nodes}
use substrate_telemetry.Core.Chain.Stale.Aging.{Among, HasBest}
use substrate_telemetry.Core.Chain.Stale.Freshness.{refresh-highest, update_stale_nodes-Kept}
use substrate_telemetry.Core.Chain.Blocks.{handle_block}
use substrate_telemetry.Core.Chain.Blocks.Heights.{handle_block-Kept}
use substrate_telemetry.Core.Chain.Payloads.Updates.{update_node-Kept}

abbrev numbers : Float
numbers = record {
  zero = 0;
  plus = λ a b. a + b;
  divided = λ a b. a / b;
  from_u8 = λ n. n;
  from_u64 = λ n. n;
}

abbrev floats : Floats
floats = record { f32 = numbers; f64 = numbers }

-- Numbers with three decimal places.
abbrev percentage : F64
percentage = record {
  from_u64 = λ n. n * 1000;
  divided = λ a b. a * 1000 / b;
  times = λ a b. a * b / 1000;
  hundred = 100000;
  as_u32 = λ n. n / 1000;
}

abbrev details : NodeDetails
details = record {
  chain = 65 ∷ [];
  name = 66 ∷ [];
  implementation = [];
  version = 49 ∷ [];
  validator = none;
  network_id = [];
  startup_time = none;
  target_os = none;
  target_arch = none;
  target_env = none;
  sysinfo = none;
  ip = none;
}

abbrev node : Node
node = Node.new floats 1000000 details

abbrev empty : Chain
empty = Chain.new 7 5 0

empty-IsValid : IsValid percentage empty
empty-IsValid = Validity.new-IsValid percentage 7 5 0

node-IsFresh : IsFresh percentage node
node-IsFresh = new-IsFresh percentage floats 1000000 details

add_node-Joined_example : Returns (add_node percentage node empty) (Joined percentage empty node)
add_node-Joined_example = add_node-Joined percentage node empty empty-IsValid node-IsFresh

-- The chain after the node has joined it.
abbrev chain_of : Run (Chain × AddNodeResult) → Chain
chain_of (ok r) = r.0
chain_of panic = empty

abbrev one : Chain
one = chain_of (add_node percentage node empty)

Joined-IsValid :
    (r : Chain × AddNodeResult) → Joined percentage empty node r → IsValid percentage r.0
Joined-IsValid _ (refused full) = empty-IsValid
Joined-IsValid _ (joined c id renamed room a v g) = v

chain_of-IsValid :
    (r : Run (Chain × AddNodeResult))
    → Returns r (Joined percentage empty node)
    → IsValid percentage (chain_of r)
chain_of-IsValid (ok r) h = Joined-IsValid r h
chain_of-IsValid panic h = absurd h

one-IsValid : IsValid percentage one
one-IsValid = chain_of-IsValid (add_node percentage node empty) add_node-Joined_example

-- The Id that the node was given.
abbrev id_of : Chain × AddNodeResult → ℕ
id_of (c, overquota) = 0
id_of (c, added id renamed) = id

abbrev id_of_run : Run (Chain × AddNodeResult) → ℕ
id_of_run (ok r) = id_of r
id_of_run panic = 0

abbrev id : ℕ
id = id_of_run (add_node percentage node empty)

Joined-get :
    (r : Chain × AddNodeResult)
    → Joined percentage empty node r
    → get_node r.0 (id_of r) ≡ some node
unfolding get_node node_count Chain.new DenseMap.new
Joined-get _ (refused full) =
    absurd (omega (arith, full, len-occupied {T = Node} DenseMap.new Allocation.new-IsValid))
Joined-get _ (joined c nid renamed room a v g) =
    a.reads nid ∙ if_pos (ℕ_discrete nid nid) refl (some node) (DenseMap.get empty.nodes nid)

chain_of-get :
    (r : Run (Chain × AddNodeResult))
    → Returns r (Joined percentage empty node)
    → get_node (chain_of r) (id_of_run r) ≡ some node
chain_of-get (ok r) h = Joined-get r h
chain_of-get panic h = absurd h

one-get : get_node one id ≡ some node
one-get = chain_of-get (add_node percentage node empty) add_node-Joined_example

remove_node-Left_example :
    Returns (remove_node percentage id one) (λ r. Left percentage one id node r.0)
remove_node-Left_example = remove_node-Left percentage id node one one-IsValid one-get

abbrev readings : Readings
readings = record { now = 1500000; instant = 6000000000; stamp = 1500000 }

abbrev payload : Payload
payload = block_import (record { hash = 11; height = 1 })

update_node-Kept_example :
    Returns
      (update_node floats percentage readings id payload true one)
      (λ r. Kept percentage one r.0)
update_node-Kept_example =
    update_node-Kept percentage floats readings id payload true one one-IsValid

-- The chain, with a best block that no node has any more.
abbrev dated : Chain
dated = record one { best = record { hash = 9; height = 4 } }

refresh-highest_example :
    All
      (IsUnder (refresh 1500000 1380000 dated).0.best.height)
      (contents (refresh 1500000 1380000 dated).0.nodes.items)
    × (((refresh 1500000 1380000 dated).0.best ≡ zero_block)
        ⊎ Among
            (HasBest (refresh 1500000 1380000 dated).0.best)
            (contents (refresh 1500000 1380000 dated).0.nodes.items))
refresh-highest_example =
    refresh-highest percentage 1500000 1380000 dated (inl (λ e. absurd (omega arith)))

update_stale_nodes-Kept_example : Kept percentage one (update_stale_nodes 1500000 one).0
update_stale_nodes-Kept_example = update_stale_nodes-Kept percentage 1500000 one one-IsValid

handle_block-Kept_example :
    Returns
      (handle_block readings (record { hash = 11; height = 1 }) id one)
      (λ r. Kept percentage one r.0)
handle_block-Kept_example =
    handle_block-Kept percentage readings (record { hash = 11; height = 1 }) id one one-IsValid
