-- ===== src/Core/State.antt =====
-- backend/telemetry_core/src/state/state.rs: every chain, found by its Id or by its genesis hash. The
-- methods that a feed or a shard calls go through here to the chain of the node.
pub mod Index
pub mod Presence
pub mod Chains
pub mod Nodes
pub mod Examples
use substrate_telemetry.Prelude.{
  ℕ, ite, Bool, true, false, Option, none, some, List, [], ◌∷◌, and_then, Text, text_key,
  bucket_key, bool_key, nat_key, ◌==◌, if◌then◌else◌, Run, ok, ◌>>=◌, expect, u64_max,
}
use substrate_telemetry.Common.DenseMap.{DenseMap}
use substrate_telemetry.Common.DenseMap
use substrate_telemetry.Prelude.HashMap.{HashMap}
use substrate_telemetry.Prelude.HashMap
use substrate_telemetry.Common.NodeMessage.{Payload}
use substrate_telemetry.Common.NodeTypes.{BlockHash, Location, NodeDetails}
use substrate_telemetry.Core.ChainStats.{F64}
use substrate_telemetry.Core.Node.{Floats, Node}
use substrate_telemetry.Core.Node
use substrate_telemetry.Core.Feed.{Feed}
use substrate_telemetry.Core.Chain.{
  Chain, Readings, get_node, is_first_party_network, label, node_count,
}
use substrate_telemetry.Core.Chain
use substrate_telemetry.Core.Chain.Payloads

-- The chain, and the node in the chain.
pub record NodeId : Type 0 where
  pub chain_id : ℕ
  pub chain_node_id : ℕ

pub record State : Type 0 where
  pub chains : DenseMap Chain
  pub chains_by_genesis_hash : HashMap BlockHash ℕ
  pub denylist : List Text
  pub max_third_party_nodes : ℕ

pub record NodeAddedToChain : Type 0 where
  pub id : NodeId
  pub old_chain_label : Text
  pub new_chain_label : Text
  pub node : Node
  pub chain_node_count : ℕ
  pub has_chain_label_changed : Bool

pub data AddNodeResult : Type 0 where
  chain_on_deny_list : AddNodeResult
  chain_over_quota : AddNodeResult
  node_added_to_chain : NodeAddedToChain → AddNodeResult

pub record RemovedNode : Type 0 where
  pub chain_node_count : ℕ
  pub has_chain_label_changed : Bool
  pub old_chain_label : Text
  pub chain_genesis_hash : BlockHash
  pub new_chain_label : Text

pub new : List Text → ℕ → State
new denylist max_third_party_nodes = record {
  chains = DenseMap.new;
  chains_by_genesis_hash = [];
  denylist = denylist;
  max_third_party_nodes = max_third_party_nodes;
}

pub get_chain_by_node_id : State → NodeId → Option Chain
get_chain_by_node_id s id = DenseMap.get s.chains id.chain_id

pub get_chain_by_genesis_hash : State → BlockHash → Option Chain
get_chain_by_genesis_hash s genesis_hash =
    and_then (HashMap.get genesis_hash s.chains_by_genesis_hash) (DenseMap.get s.chains)

-- `usize::MAX`
abbrev pub usize_max : ℕ
usize_max = u64_max

-- `self.denylist.contains(chain)`
pub is_denied : List Text → Text → Bool
is_denied [] chain = false
is_denied (denied ∷ rest) chain = ite (text_key.dec denied chain) true (is_denied rest chain)

pub max_nodes_of : State → BlockHash → ℕ
max_nodes_of s genesis_hash =
    if is_first_party_network genesis_hash then usize_max else s.max_third_party_nodes

-- The Id of the chain, which is created if there is none; `instant` is `Instant::now()`.
pub chain_id_of : ℕ → BlockHash → State → Run (State × ℕ)
chain_id_of instant genesis_hash s = elim (HashMap.get genesis_hash s.chains_by_genesis_hash) [
  | some id ↦ ok (s, id)
  | none ↦ do
    (chains, id) ←
        DenseMap.add s.chains (Chain.new genesis_hash (max_nodes_of s genesis_hash) instant)
    ok (
      record s {
        chains = chains;
        chains_by_genesis_hash = HashMap.insert genesis_hash id s.chains_by_genesis_hash;
      },
      id,
    )
]

-- The result, from that of the chain.
report_added : ℕ → Text → Chain → Chain.AddNodeResult → Run AddNodeResult
report_added chain_id old_chain_label chain Chain.overquota = ok chain_over_quota
report_added chain_id old_chain_label chain (Chain.added id chain_renamed) = do
  node ← expect (get_node chain id)
  ok (
      node_added_to_chain (record {
        id = record { chain_id = chain_id; chain_node_id = id };
        old_chain_label = old_chain_label;
        new_chain_label = label chain;
        node = node;
        chain_node_count = node_count chain;
        has_chain_label_changed = chain_renamed;
      }))

-- An empty chain is removed, and so is its entry in the index.
pub drop_empty : ℕ → Chain → State → State
drop_empty chain_id chain s =
    if node_count chain == 0
    then record s {
      chains_by_genesis_hash = HashMap.remove chain.genesis_hash s.chains_by_genesis_hash;
      chains = (DenseMap.remove s.chains chain_id).0;
    }
    else s

module _ (f64 : F64) where
  pub remove_node : NodeId → State → Run (State × Option RemovedNode)
  remove_node id s = elim (DenseMap.get s.chains id.chain_id) [
    | none ↦ ok (s, none)
    | some chain ↦ do
      (chain', result) ← Chain.remove_node f64 id.chain_node_id chain
      let s' = record s { chains = DenseMap.put s.chains id.chain_id chain' }
      ok (
        drop_empty id.chain_id chain' s',
        some (record {
          chain_node_count = node_count chain';
          has_chain_label_changed = result.chain_renamed;
          old_chain_label = label chain;
          chain_genesis_hash = chain'.genesis_hash;
          new_chain_label = label chain';
        }),
      )
  ]

module _ (floats : Floats) (f64 : F64) where
  -- `now` and `instant` are what the two clocks read.
  pub add_node : ℕ → ℕ → BlockHash → NodeDetails → State → Run (State × AddNodeResult)
  unfolding report_added
  add_node now instant genesis_hash node_details s =
      if is_denied s.denylist node_details.chain then ok (s, chain_on_deny_list) else (do
        (s', chain_id) ← chain_id_of instant genesis_hash s
        chain ← expect (DenseMap.get s'.chains chain_id)
        (chain', result) ← Chain.add_node f64 (Node.new floats now node_details) chain
        result' ← report_added chain_id (label chain) chain' result
        ok (record s' { chains = DenseMap.put s'.chains chain_id chain' }, result'))

  pub update_node : Readings → NodeId → Payload → Bool → State → Run (State × Feed)
  update_node readings id payload expose s = elim (DenseMap.get s.chains id.chain_id) [
    | none ↦ ok (s, [])
    | some chain ↦ do
      (chain', feed) ←
          Payloads.update_node floats f64 readings id.chain_node_id payload expose chain
      ok (record s { chains = DenseMap.put s.chains id.chain_id chain' }, feed)
  ]

pub update_node_location : NodeId → Location → State → State × Bool
update_node_location id location s = elim (DenseMap.get s.chains id.chain_id) [
  | none ↦ (s, false)
  | some chain ↦
      let (chain', found) = Chain.update_node_location id.chain_node_id location chain in
      (record s { chains = DenseMap.put s.chains id.chain_id chain' }, found)
]
