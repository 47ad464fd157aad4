-- ===== src/Core/State/Nodes.antt =====
-- Nodes that join, leave and report to the chains of a state.
use substrate_telemetry.Prelude.{
  ℕ, ◌≤◌, ◌≡◌, refl, ◌∙◌, inl, inr, if_pos, Bool, true, some, Text, Option-cases, Bool-cases, ok,
  ◌>>=◌, Returns, Run-cases, ℕ_discrete, false, sym, arith,
}
use substrate_telemetry.Common.DenseMap.{DenseMap}
use substrate_telemetry.Common.DenseMap
use substrate_telemetry.Common.DenseMap.Contents.{get-put}
use substrate_telemetry.Common.NodeTypes.{BlockHash, Location}
use substrate_telemetry.Core.ChainStats.{F64}
use substrate_telemetry.Core.Node.{Node, Floats}
use substrate_telemetry.Core.Node
use substrate_telemetry.Core.Chain.{Chain, Readings, get_node, node_count, label}
use substrate_telemetry.Core.Chain
use substrate_telemetry.Common.NodeMessage.{Payload}
use substrate_telemetry.Common.NodeTypes.{NodeDetails}
use substrate_telemetry.Core.Chain.Membership.{
  Joined, joined, refused, remove_node-Gone, update_node_location-Kept, add_node-Joined,
  new-IsFresh,
}
use substrate_telemetry.Core.Chain.Validity.{node_count-IsValid}
use substrate_telemetry.Core.Chain.Payloads
use substrate_telemetry.Core.Chain.Payloads.Updates.{update_node-Kept}
use substrate_telemetry.Core.State.{
  AddNodeResult, NodeAddedToChain, NodeId, State, add_node, chain_id_of, chain_on_deny_list,
  chain_over_quota, get_chain_by_node_id, is_denied, node_added_to_chain, remove_node, report_added,
  update_node, update_node_location, get_chain_by_genesis_hash,
}
use substrate_telemetry.Core.State.Presence.{
  stored, Alike, With, Without, put-Alike, put_entered, put_left, drop_empty-Alike,
}
use substrate_telemetry.Core.State.Index.{IsValid, put-IsValid, get_chain_by_genesis_hash_lem}
use substrate_telemetry.Core.State.Chains.{chain_id_of-Found, drop_empty-IsValid}

module _ (f64 : F64) where
  module _ (floats : Floats) where
    -- `update_node` on a valid state does not panic, whatever the payload, and keeps the state valid,
    -- with the same nodes.
    pub update_node-IsValid :
        (readings : Readings) (id : NodeId) (payload : Payload) (expose : Bool) (s : State)
        → IsValid f64 s
        → Returns
            (update_node floats f64 readings id payload expose s)
            (λ r. IsValid f64 r.0 × Alike s r.0)
    unfolding update_node
    update_node-IsValid readings id payload expose s v =
        elim (Option-cases (DenseMap.get s.chains id.chain_id)) [
          | inl e ↦ rw (update_node, e) (v, λ j. refl)
          | inr (chain, e) ↦
              let (r, e', k) =
                Run-cases _
                  (Payloads.update_node floats f64 readings id.chain_node_id payload expose chain)
                  (update_node-Kept f64 floats readings id.chain_node_id payload expose chain
                    (v.chains id.chain_id chain e)) in
              rw (update_node, e, e')
                (
                  put-IsValid f64 s id.chain_id chain r.0 v e k.valid k.genesis_hash,
                  put-Alike s id.chain_id chain r.0 v.slots e k.present,
                )
        ]

  -- `remove_node` on a valid state does not panic, also for a node that is not there, and keeps the
  -- state valid; afterwards the state has the nodes that it had but for the one removed.
  pub remove_node-IsValid :
      (id : NodeId) (s : State)
      → IsValid f64 s
      → Returns (remove_node f64 id s) (λ r. IsValid f64 r.0 × Without id s r.0)
  unfolding remove_node
  remove_node-IsValid id s v = elim (Option-cases (DenseMap.get s.chains id.chain_id)) [
    | inl e ↦ rw (remove_node, e) (v, λ j. ground (arith, e))
    | inr (chain, e) ↦
        let (r, e', k) =
          Run-cases _ (Chain.remove_node f64 id.chain_node_id chain)
            (remove_node-Gone f64 id.chain_node_id chain (v.chains id.chain_id chain e)) in
        let s' : State = record s { chains = DenseMap.put s.chains id.chain_id r.0 } in
        let w = put-IsValid f64 s id.chain_id chain r.0 v e k.valid k.genesis_hash in
        let found = get-put s.chains id.chain_id chain r.0 e in
        rw (remove_node, e, e')
          (
            drop_empty-IsValid f64 id.chain_id r.0 s' w found,
            λ j.
                drop_empty-Alike f64 id.chain_id r.0 s' w.slots found k.valid j
                ∙ put_left s id chain r.0 v.slots e k.present j,
          )
  ]

  -- What `add_node` tells of a node with these details.
  pub data Told (floats : Floats) (now : ℕ) (genesis_hash : BlockHash) (details : NodeDetails)
      (s : State) : State × AddNodeResult → Type 0 where
    denied :
        is_denied s.denylist details.chain ≡ true
        → Told floats now genesis_hash details s (s, chain_on_deny_list)
    full :
        (s' : State) (chain : Chain)
        → is_denied s.denylist details.chain ≡ false
        → get_chain_by_genesis_hash s' genesis_hash ≡ some chain
        → chain.max_nodes ≤ node_count chain
        → IsValid f64 s'
        → Alike s s'
        → Told floats now genesis_hash details s (s', chain_over_quota)
    entered :
        (s' : State) (report : NodeAddedToChain) (chain : Chain)
        → is_denied s.denylist details.chain ≡ false
        → get_chain_by_genesis_hash s' genesis_hash ≡ some chain
        → node_count chain ≤ chain.max_nodes
        → IsValid f64 s'
        → get_chain_by_node_id s' report.id ≡ some chain
        → chain.genesis_hash ≡ genesis_hash
        → get_node chain report.id.chain_node_id ≡ some report.node
        → report.node ≡ Node.new floats now details
        → stored s report.id ≡ false
        → With report.id s s'
        → Told floats now genesis_hash details s (s', node_added_to_chain report)

  -- `report_added`, for a chain that the node has joined.
  report_added-joined :
      (chain_id : ℕ) (old : Text) (chain : Chain) (id : ℕ) (renamed : Bool) (node : Node)
      → get_node chain id ≡ some node
      → report_added chain_id old chain (Chain.added id renamed)
        ≡ ok (
            node_added_to_chain (record {
              id = record { chain_id = chain_id; chain_node_id = id };
              old_chain_label = old;
              new_chain_label = label chain;
              node = node;
              chain_node_count = node_count chain;
              has_chain_label_changed = renamed;
            }))
  unfolding report_added
  report_added-joined chain_id old chain id renamed node e = rw (report_added, e) refl

  module _ (floats : Floats) where
    -- What the result of the chain comes to.
    report_joined :
        (now : ℕ) (genesis_hash : BlockHash) (details : NodeDetails) (s s' : State) (id : ℕ)
        (chain : Chain) (r : Chain × Chain.AddNodeResult)
        → is_denied s.denylist details.chain ≡ false
        → IsValid f64 s'
        → Alike s s'
        → DenseMap.get s'.chains id ≡ some chain
        → chain.genesis_hash ≡ genesis_hash
        → Joined f64 chain (Node.new floats now details) r
        → Returns
            (do
              result' ← report_added id (label chain) r.0 r.1
              ok (record s' { chains = DenseMap.put s'.chains id r.0 }, result'))
            (Told floats now genesis_hash details s)
    unfolding report_added get_node get_chain_by_node_id
    report_joined now genesis_hash details s s' id chain _ n v same_before e g (refused h) =
        let w = put-IsValid f64 s' id chain chain v e (v.chains id chain e) refl in
        full _ chain n
          ((get_chain_by_genesis_hash_lem f64 _ genesis_hash chain w).1
            (id, get-put s'.chains id chain chain e, g))
          h w (λ j. put-Alike s' id chain chain v.slots e (λ i. refl) j ∙ same_before j)
    report_joined now genesis_hash details s s' id chain _ n v same_before e g
          (joined c nid renamed room a w k) =
        let node = Node.new floats now details in
        let read : get_node c nid ≡ some node =
          a.reads nid
          ∙ if_pos (ℕ_discrete nid nid) refl (some node) (DenseMap.get chain.nodes nid) in
        let kept = put-IsValid f64 s' id chain c v e w k in
        let put = get-put s'.chains id chain c e in
        rw (report_added-joined id (label chain) c nid renamed node read) (
          entered _ _ c n
            ((get_chain_by_genesis_hash_lem f64 _ genesis_hash c kept).1 (id, put, k ∙ g))
            (node_count-IsValid f64 c w) kept put (k ∙ g) read refl
            (sym (same_before (record { chain_id = id; chain_node_id = nid }))
              ∙ ground (arith, e, a.fresh))
            (λ j.
              put_entered s' id chain c nid v.slots e (λ i. ground (arith, a.reads i)) j
              ∙ ground (arith, same_before j)))

    -- `add_node` on a valid state does not panic. It turns a node away if its chain is on the deny list,
    -- and then changes nothing, or if the chain is not denied but the chain that is afterwards found by
    -- the genesis hash is full, and then there are the same nodes; otherwise the chain is not denied,
    -- the node is read under the Id that is reported, which had no node, in the chain that is found by
    -- the genesis hash, this has no more nodes than its quota, and there are the other nodes that there
    -- were. The state stays valid.
    pub add_node-Told :
        (now instant : ℕ) (genesis_hash : BlockHash) (details : NodeDetails) (s : State)
        → IsValid f64 s
        → Returns
            (add_node floats f64 now instant genesis_hash details s)
            (Told floats now genesis_hash details s)
    unfolding add_node
    add_node-Told now instant genesis_hash details s v =
        elim (Bool-cases (is_denied s.denylist details.chain)) [
          | inl h ↦ rw (add_node, h) (denied h)
          | inr h ↦
              let ((s', id), e1, f) =
                Run-cases _ (chain_id_of instant genesis_hash s)
                  (chain_id_of-Found f64 instant genesis_hash s v) in
              let (r, e2, j) =
                Run-cases _ (Chain.add_node f64 (Node.new floats now details) f.chain) (
                  add_node-Joined f64 (Node.new floats now details) f.chain
                    (f.valid.chains id f.chain f.found) (new-IsFresh f64 floats now details)) in
              rw (add_node, h, e1, f.found, e2)
                (report_joined now genesis_hash details s s' id f.chain r h f.valid f.alike f.found
                  f.genesis j)
        ]

  -- Locating a node keeps the state valid.
  pub update_node_location-IsValid :
      (id : NodeId) (location : Location) (s : State)
      → IsValid f64 s
      → IsValid f64 (update_node_location id location s).0
  unfolding update_node_location
  update_node_location-IsValid id location s v =
      elim (Option-cases (DenseMap.get s.chains id.chain_id)) [
        | inl e ↦ rw (update_node_location, e) v
        | inr (chain, e) ↦
            let k =
              update_node_location-Kept f64 id.chain_node_id location chain
                (v.chains id.chain_id chain e) in
            rw (update_node_location, e)
              (put-IsValid f64 s id.chain_id chain
                (Chain.update_node_location id.chain_node_id location chain).0 v e k.valid
                k.genesis_hash)
      ]
