-- ===== src/Core/State/Chains.antt =====
-- Chains that are made for a first node, and dropped with the last one.
use substrate_telemetry.Prelude.{
  ℕ, ◌≡◌, refl, arith, subst, sym, ap, ◌∙◌, inl, inr, if_pos, none, some, map_option, text_key,
  bucket_key, bool_key, nat_key, ◌==◌, Option-cases, Bool-cases, Returns, ℕ_discrete,
}
use substrate_telemetry.Common.DenseMap.{DenseMap}
use substrate_telemetry.Common.DenseMap
use substrate_telemetry.Common.DenseMap.Allocation.{Added, add-Added, remove-Removed}
use substrate_telemetry.Common.NodeTypes.{BlockHash}
use substrate_telemetry.Core.ChainStats.{F64}
use substrate_telemetry.Core.Chain.{Chain, node_count}
use substrate_telemetry.Core.Chain
use substrate_telemetry.Prelude.HashMap
use substrate_telemetry.Prelude.HashMap.{
  HashMap, get-insert, get-remove, insert-IsMap, remove-IsMap,
}
use substrate_telemetry.Core.Chain.Validity
use substrate_telemetry.Core.Chain.Validity.{new_genesis, new_has_node}
use substrate_telemetry.Core.State.{State, chain_id_of, drop_empty, max_nodes_of}
use substrate_telemetry.Core.State.Presence.{Alike}
use substrate_telemetry.Core.State.Index.{IsValid, at_cases, genesis_at}

module _ (f64 : F64) where
  -- What `add_node` knows of the chain whose Id it has found or made.
  pub record Found (s : State) (genesis_hash : BlockHash) (r : State × ℕ) : Type 0 where
    pub valid : IsValid f64 r.0
    pub alike : Alike s r.0
    pub chain : Chain
    pub found : DenseMap.get r.0.chains r.1 ≡ some chain
    pub genesis : chain.genesis_hash ≡ genesis_hash

  indexed-Found :
      (s : State) (genesis_hash : BlockHash) (id : ℕ)
      → IsValid f64 s
      → HashMap.get genesis_hash s.chains_by_genesis_hash ≡ some id
      → Found s genesis_hash (s, id)
  indexed-Found s genesis_hash id v e = elim (Option-cases (DenseMap.get s.chains id)) [
    | inl none_there ↦ absurd (
        let at = (v.index genesis_hash id).0 e in
        let nothing = ap (map_option (λ (c : Chain). c.genesis_hash)) none_there in cc)
    | inr (chain, stored) ↦ record {
      valid = v;
      alike = λ j. refl;
      chain = chain;
      found = stored;
      genesis =
          let at = (v.index genesis_hash id).0 e in
          let one = ap (map_option (λ (c : Chain). c.genesis_hash)) stored in cc;
    }
  ]

  -- A chain of a new genesis hash, entered into the index.
  insert-IsValid :
      (s : State) (genesis_hash : BlockHash) (id : ℕ) (chain : Chain) (chains : DenseMap Chain)
      → IsValid f64 s
      → HashMap.get genesis_hash s.chains_by_genesis_hash ≡ none
      → Added s.chains (λ _. chain) (chains, id)
      → Validity.IsValid f64 chain
      → chain.genesis_hash ≡ genesis_hash
      → IsValid f64 (record s {
        chains = chains;
        chains_by_genesis_hash = HashMap.insert genesis_hash id s.chains_by_genesis_hash;
      })
  insert-IsValid s genesis_hash id chain chains v e a w same =
      let hash = map_option (λ (c : Chain). c.genesis_hash) in
      let s' : State = record s {
        chains = chains;
        chains_by_genesis_hash = HashMap.insert genesis_hash id s.chains_by_genesis_hash;
      } in
      let fresh : genesis_at s id ≡ none = ap hash a.fresh in
      let new_one : hash (some chain) ≡ some genesis_hash = ap some same in
      record {
        slots = a.valid;
        keys = insert-IsMap genesis_hash id s.chains_by_genesis_hash v.keys;
        index = λ g j.
            let read = a.reads j in
            let entry = get-insert genesis_hash g id s.chains_by_genesis_hash in
            let before = v.index g j in
            elim (at_cases id j _ _ _ read) [
              | inl (p, q) ↦
                  let q' : genesis_at s' j ≡ some genesis_hash = ap hash q ∙ new_one in
                  elim (at_cases genesis_hash g _ _ _ entry) [
                    | inl (k, r) ↦ ((λ h. cc), (λ h. cc))
                    | inr (k, r) ↦ (
                      (λ h. absurd (
                          let there = before.0 (sym r ∙ h) in
                          let gone = subst (λ i. genesis_at s i ≡ none) p fresh in cc)),
                      (λ h. absurd (k (cc))),
                    )
                  ]
              | inr (p, q) ↦
                  let q' : genesis_at s' j ≡ genesis_at s j = ap hash q in
                  elim (at_cases genesis_hash g _ _ _ entry) [
                    | inl (k, r) ↦ (
                      (λ h. absurd (p (cc))),
                      (λ h. absurd (
                          let there = before.1 (sym q' ∙ h) in
                          let gone =
                            subst (λ i. HashMap.get i s.chains_by_genesis_hash ≡ none) k e in
                          cc)),
                    )
                    | inr (k, r) ↦
                        ((λ h. q' ∙ before.0 (sym r ∙ h)), (λ h. r ∙ before.1 (sym q' ∙ h)))
                  ]
            ];
        chains = λ j c h. elim (at_cases id j _ _ _ (a.reads j)) [
          | inl (p, q) ↦ let alike : chain ≡ c = cc in subst (Validity.IsValid f64) alike w
          | inr (p, q) ↦ v.chains j c (sym q ∙ h)
        ];
      }

  -- The Id of the chain is found or made, and the state stays valid.
  pub chain_id_of-Found :
      (instant : ℕ) (genesis_hash : BlockHash) (s : State)
      → IsValid f64 s
      → Returns (chain_id_of instant genesis_hash s) (Found s genesis_hash)
  unfolding chain_id_of
  chain_id_of-Found instant genesis_hash s v =
      elim (Option-cases (HashMap.get genesis_hash s.chains_by_genesis_hash)) [
        | inr (id, e) ↦ rw (chain_id_of, e) (indexed-Found s genesis_hash id v e)
        | inl e ↦
            let chain = Chain.new genesis_hash (max_nodes_of s genesis_hash) instant in
            let ((chains, id), e', a) = add-Added s.chains chain v.slots in
            rw (chain_id_of, e, e')
              (record {
                valid =
                    insert-IsValid s genesis_hash id chain chains v e a
                      (Validity.new-IsValid f64 genesis_hash (max_nodes_of s genesis_hash) instant)
                      (new_genesis genesis_hash (max_nodes_of s genesis_hash) instant);
                alike = λ j. ground (
                  arith,
                  a.reads j.chain_id,
                  a.fresh,
                  new_has_node genesis_hash (max_nodes_of s genesis_hash) instant j.chain_node_id,
                );
                chain = chain;
                found =
                    a.reads id
                    ∙ if_pos (ℕ_discrete id id) refl (some chain) (DenseMap.get s.chains id);
                genesis = new_genesis genesis_hash (max_nodes_of s genesis_hash) instant;
              })
      ]

  -- Dropping a chain that has no node keeps the state valid.
  pub drop_empty-IsValid :
      (id : ℕ) (chain : Chain) (s : State)
      → IsValid f64 s
      → DenseMap.get s.chains id ≡ some chain
      → IsValid f64 (drop_empty id chain s)
  unfolding drop_empty
  drop_empty-IsValid id chain s v e = elim (Bool-cases (node_count chain == 0)) [
    | inr h ↦ rw (drop_empty, h) v
    | inl h ↦
        let hash = map_option (λ (c : Chain). c.genesis_hash) in
        let (found, a) = remove-Removed s.chains id chain v.slots e in
        let s' : State = record s {
          chains_by_genesis_hash = HashMap.remove chain.genesis_hash s.chains_by_genesis_hash;
          chains = (DenseMap.remove s.chains id).0;
        } in
        let old : genesis_at s id ≡ some chain.genesis_hash = ap hash e in
        let listed = (v.index chain.genesis_hash id).1 old in
        rw (drop_empty, h)
          (record {
            slots = a.valid;
            keys = remove-IsMap chain.genesis_hash s.chains_by_genesis_hash v.keys;
            index = λ g j.
                let entry = get-remove chain.genesis_hash g s.chains_by_genesis_hash in
                let before = v.index g j in
                elim (at_cases id j _ _ _ (a.reads j)) [
                  | inl (p, q) ↦
                      let q' : genesis_at s' j ≡ none = ap hash q in
                      elim (at_cases chain.genesis_hash g _ _ _ entry) [
                        | inl (k, r) ↦ ((λ h. absurd (cc)), (λ h. absurd (cc)))
                        | inr (k, r) ↦ (
                          (λ h. absurd (
                              let stored = before.0 (sym r ∙ h) in
                              let here_old =
                                subst (λ i. genesis_at s i ≡ some chain.genesis_hash) p old in
                              k (cc))),
                          (λ h. absurd (cc)),
                        )
                      ]
                  | inr (p, q) ↦
                      let q' : genesis_at s' j ≡ genesis_at s j = ap hash q in
                      elim (at_cases chain.genesis_hash g _ _ _ entry) [
                        | inl (k, r) ↦ (
                          (λ h. absurd (cc)),
                          (λ h. absurd (
                              let stored = before.1 (sym q' ∙ h) in
                              let entry_old =
                                subst (λ i. HashMap.get i s.chains_by_genesis_hash ≡ some id) k
                                  listed in
                              p (cc))),
                        )
                        | inr (k, r) ↦
                            ((λ h. q' ∙ before.0 (sym r ∙ h)), (λ h. r ∙ before.1 (sym q' ∙ h)))
                      ]
                ];
            chains = λ j c h. elim (at_cases id j _ _ _ (a.reads j)) [
              | inl (p, q) ↦ absurd (cc)
              | inr (p, q) ↦ v.chains j c (sym q ∙ h)
            ];
          })
  ]
