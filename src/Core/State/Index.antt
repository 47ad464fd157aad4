-- ===== src/Core/State/Index.antt =====
-- The index of a `State`: it leads to each chain from its genesis hash, and to nothing else.
use substrate_telemetry.Prelude.{
  ℕ, ◌≡◌, subst, sym, ap, ◌∙◌, ◌≢◌, ◌⊎◌, ◌↔◌, inl, inr, ite, if_pos, if_neg, Option, some, List,
  and_then, map_option, Text, text_key, bucket_key, bool_key, nat_key, Option-cases, ℕ_discrete,
}
use substrate_telemetry.Common.DenseMap.{DenseMap}
use substrate_telemetry.Common.DenseMap
use substrate_telemetry.Common.DenseMap.Slots
use substrate_telemetry.Common.DenseMap.Allocation
use substrate_telemetry.Common.DenseMap.Contents.{get-new, put-Replaced}
use substrate_telemetry.Common.NodeTypes.{BlockHash}
use substrate_telemetry.Core.ChainStats.{F64}
use substrate_telemetry.Core.Chain.{Chain}
use substrate_telemetry.Prelude.HashMap
use substrate_telemetry.Prelude.HashMap.{HashMap, IsMap}
use substrate_telemetry.Core.Chain.Validity
use substrate_telemetry.Core.State.{State, get_chain_by_genesis_hash, new}

-- The genesis hash of the chain with the Id.
abbrev pub genesis_at : State → ℕ → Option BlockHash
genesis_at s id = map_option (λ (c : Chain). c.genesis_hash) (DenseMap.get s.chains id)

-- The two sides of a map that was changed at one Id.
pub at_cases :
    {A : Type 0} (id j : ℕ) (read new old : Option A)
    → read ≡ ite (ℕ_discrete id j) new old
    → ((id ≡ j) × (read ≡ new)) ⊎ ((id ≢ j) × (read ≡ old))
at_cases id j read new old e = elim (ℕ_discrete id j) [
  | yes p ↦ inl (p, e ∙ if_pos (ℕ_discrete id j) p new old)
  | no p ↦ inr (p, e ∙ if_neg (ℕ_discrete id j) p new old)
]

module _ (f64 : F64) where
  pub record IsValid (s : State) : Type 0 where
    pub slots : Slots.IsValid s.chains
    pub keys : IsMap s.chains_by_genesis_hash
    pub index :
        (genesis_hash : BlockHash) (id : ℕ)
        → (HashMap.get genesis_hash s.chains_by_genesis_hash ≡ some id)
          ↔ (genesis_at s id ≡ some genesis_hash)
    pub chains :
        (id : ℕ) (chain : Chain)
        → DenseMap.get s.chains id ≡ some chain
        → Validity.IsValid f64 chain

  -- A chain may be replaced by a valid one with its genesis hash.
  pub put-IsValid :
      (s : State) (id : ℕ) (chain chain' : Chain)
      → IsValid s
      → DenseMap.get s.chains id ≡ some chain
      → Validity.IsValid f64 chain'
      → chain'.genesis_hash ≡ chain.genesis_hash
      → IsValid (record s { chains = DenseMap.put s.chains id chain' })
  put-IsValid s id chain chain' v e w same =
      let r = put-Replaced s.chains id chain chain' v.slots e in
      let s' : State = record s { chains = DenseMap.put s.chains id chain' } in
      let kept : (j : ℕ) → genesis_at s' j ≡ genesis_at s j = λ j.
        elim (at_cases id j _ _ _ (r.reads j)) [
          | inl (p, q) ↦
              ap (map_option (λ (c : Chain). c.genesis_hash)) q
              ∙ ap some same
              ∙ sym (
                  ap (map_option (λ (c : Chain). c.genesis_hash))
                    (subst (λ k. DenseMap.get s.chains k ≡ some chain) p e))
          | inr (p, q) ↦ ap (map_option (λ (c : Chain). c.genesis_hash)) q
        ] in
      record {
        slots = r.valid;
        keys = v.keys;
        index =
            λ g j. ((λ h. kept j ∙ (v.index g j).0 h), (λ h. (v.index g j).1 (sym (kept j) ∙ h)));
        chains = λ j c h. elim (at_cases id j _ _ _ (r.reads j)) [
          | inl (p, q) ↦ let alike : chain' ≡ c = cc in subst (Validity.IsValid f64) alike w
          | inr (p, q) ↦ v.chains j c (sym q ∙ h)
        ];
      }

  -- A new state is valid.
  pub new-IsValid : (denylist : List Text) (max : ℕ) → IsValid (new denylist max)
  unfolding new HashMap.get
  new-IsValid denylist max = record {
    slots = Allocation.new-IsValid;
    keys = tt;
    index = λ g id. ((λ h. absurd (cc)), (λ h. absurd (no_chain id g h)));
    chains = λ id chain h. absurd (no_entry id chain h);
  }
    where
      no_entry :
          (id : ℕ) (chain : Chain) → DenseMap.get (DenseMap.new {T = Chain}) id ≡ some chain → ⊥
      no_entry id chain h = let e = get-new {T = Chain} id in cc

      no_chain : (id : ℕ) (g : BlockHash) → genesis_at (new denylist max) id ≡ some g → ⊥
      no_chain id g h = let e = get-new {T = Chain} id in cc

  -- In a valid state a genesis hash finds the chain that has it.
  pub get_chain_by_genesis_hash_lem :
      (s : State) (genesis_hash : BlockHash) (chain : Chain)
      → IsValid s
      → (get_chain_by_genesis_hash s genesis_hash ≡ some chain)
        ↔ ((id : ℕ) × (DenseMap.get s.chains id ≡ some chain) × (chain.genesis_hash ≡ genesis_hash))
  unfolding get_chain_by_genesis_hash
  get_chain_by_genesis_hash_lem s g chain v = (
    (λ h. elim (Option-cases (HashMap.get g s.chains_by_genesis_hash)) [
      | inl e ↦ absurd (let nothing = ap (λ o. and_then o (DenseMap.get s.chains)) e in cc)
      | inr (id, e) ↦
          let stored = sym (ap (λ o. and_then o (DenseMap.get s.chains)) e) ∙ h in
          let at = (v.index g id).0 e in
          let one = ap (map_option (λ (c : Chain). c.genesis_hash)) stored in (id, stored, cc)
    ]),
    (λ (id, stored, same).
        let at = ap (map_option (λ (c : Chain). c.genesis_hash)) stored ∙ ap some same in
        ap (λ o. and_then o (DenseMap.get s.chains)) ((v.index g id).1 at) ∙ stored),
  )
