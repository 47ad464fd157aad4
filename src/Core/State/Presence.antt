-- ===== src/Core/State/Presence.antt =====
-- backend/telemetry_core/src/state/state.rs: which nodes a state has, and what its operations do to them.
use substrate_telemetry.Prelude.{
  ℕ, ◌≡◌, refl, ◌∙◌, inl, inr, Bool, true, false, ◌&&◌, is_some, Option, none, some, ite, ◌==◌,
  if◌then◌else◌, arith, Option-cases, Bool-cases, ℕ_discrete,
}
use substrate_telemetry.Common.DenseMap
use substrate_telemetry.Common.DenseMap.Slots
use substrate_telemetry.Common.DenseMap.Contents.{put-Replaced}
use substrate_telemetry.Common.DenseMap.Allocation.{remove-Removed}
use substrate_telemetry.Core.ChainStats.{F64}
use substrate_telemetry.Core.Chain.{Chain, node_count}
use substrate_telemetry.Core.Chain.Validity as Validity
use substrate_telemetry.Core.Chain.Validity.{has_node, has_node-empty}
use substrate_telemetry.Core.State.{State, NodeId, get_chain_by_node_id, drop_empty}

-- Whether there is a chain, and it has a node under the Id.
abbrev pub there : Option Chain → ℕ → Bool
there none id = false
there (some chain) id = has_node chain id

-- Whether the state has a node under the Id.
abbrev pub stored : State → NodeId → Bool
stored s id = there (DenseMap.get s.chains id.chain_id) id.chain_node_id

abbrev pub same : NodeId → NodeId → Bool
same i j = i.chain_id == j.chain_id && i.chain_node_id == j.chain_node_id

-- The two states have nodes under the same Ids.
abbrev pub Alike : State → State → Type 0
Alike s s' = (j : NodeId) → stored s' j ≡ stored s j

-- The second state has one node more, or less.
abbrev pub With : NodeId → State → State → Type 0
With id s s' = (j : NodeId) → stored s' j ≡ (if same id j then true else stored s j)

abbrev pub Without : NodeId → State → State → Type 0
Without id s s' = (j : NodeId) → stored s' j ≡ (if same id j then false else stored s j)

-- A node that is stored has a chain.
pub stored-chain :
    (s : State) (id : NodeId) → stored s id ≡ true → is_some (get_chain_by_node_id s id) ≡ true
unfolding get_chain_by_node_id
stored-chain s id h = elim (Option-cases (DenseMap.get s.chains id.chain_id)) [
  | inl e ↦ ground (arith, h, e)
  | inr (chain, e) ↦ rw e refl
]

-- A chain is written over.
put-stored :
    (s : State) (id : ℕ) (chain chain' : Chain)
    → Slots.IsValid s.chains
    → DenseMap.get s.chains id ≡ some chain
    → (j : NodeId)
    → stored (record s { chains = DenseMap.put s.chains id chain' }) j
      ≡ (if id == j.chain_id then has_node chain' j.chain_node_id else stored s j)
put-stored s id chain chain' v e j =
    let r = put-Replaced s.chains id chain chain' v e in ground (arith, r.reads j.chain_id)

pub put-Alike :
    (s : State) (id : ℕ) (chain chain' : Chain)
    → Slots.IsValid s.chains
    → DenseMap.get s.chains id ≡ some chain
    → ((j : ℕ) → has_node chain' j ≡ has_node chain j)
    → Alike s (record s { chains = DenseMap.put s.chains id chain' })
put-Alike s id chain chain' v e present j =
    put-stored s id chain chain' v e j ∙ ground (arith, present j.chain_node_id, e)

pub put_entered :
    (s : State) (id : ℕ) (chain chain' : Chain) (nid : ℕ)
    → Slots.IsValid s.chains
    → DenseMap.get s.chains id ≡ some chain
    → ((j : ℕ) → has_node chain' j ≡ ite (ℕ_discrete nid j) true (has_node chain j))
    → (j : NodeId)
    → stored (record s { chains = DenseMap.put s.chains id chain' }) j
      ≡ (if same (record { chain_id = id; chain_node_id = nid }) j then true else stored s j)
put_entered s id chain chain' nid v e present j =
    put-stored s id chain chain' v e j ∙ ground (arith, present j.chain_node_id, e)

pub put_left :
    (s : State) (id : NodeId) (chain chain' : Chain)
    → Slots.IsValid s.chains
    → DenseMap.get s.chains id.chain_id ≡ some chain
    → ((j : ℕ) → has_node chain' j ≡ ite (ℕ_discrete id.chain_node_id j) false (has_node chain j))
    → (j : NodeId)
    → stored (record s { chains = DenseMap.put s.chains id.chain_id chain' }) j
      ≡ (if same id j then false else stored s j)
put_left s id chain chain' v e present j =
    put-stored s id.chain_id chain chain' v e j ∙ ground (arith, present j.chain_node_id, e)

module _ (f64 : F64) where
  pub drop_empty-Alike :
      (id : ℕ) (chain : Chain) (s : State)
      → Slots.IsValid s.chains
      → DenseMap.get s.chains id ≡ some chain
      → Validity.IsValid f64 chain
      → Alike s (drop_empty id chain s)
  unfolding drop_empty
  drop_empty-Alike id chain s v e w j = elim (Bool-cases (node_count chain == 0)) [
    | inl h ↦
        let (found, r) = remove-Removed s.chains id chain v e in
        let read = r.reads j.chain_id in
        let no_node = has_node-empty f64 chain j.chain_node_id w (ground (arith, h)) in
        rw (drop_empty, h) (ground (arith, read, no_node, e))
    | inr h ↦ rw (drop_empty, h) refl
  ]
