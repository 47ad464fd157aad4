-- ===== src/Core/Chain/Stale/Aging.antt =====
-- What the loop of `update_stale_nodes` finds, and that it changes no node but for its being stale.
use substrate_telemetry.Prelude.{
  ℕ, zero, suc, ◌≤◌, ◌≡◌, refl, subst, sym, ap, ◌∙◌, ◌⊎◌, inl, inr, Bool, true, false, Option, none,
  some, List, [], ◌∷◌, map, ltb, arith, Bool-cases, length, All, is_some,
}
use substrate_telemetry.Common.DenseMap
use substrate_telemetry.Common.DenseMap.Slots
use substrate_telemetry.Common.DenseMap.Contents.{contents}
use substrate_telemetry.Common.NodeTypes.{Block}
use substrate_telemetry.Core.Node.{Node}
use substrate_telemetry.Core.Node
use substrate_telemetry.Core.Node.Measurements
use substrate_telemetry.Core.Chain.Validity.{IsUnder, sample}
use substrate_telemetry.Core.Chain.Stale.{Survey, survey_node, survey_nodes}

-- A node is as before, but for being stale.
pub data Aged : Node → Node → Type 0 where
  aged :
      (node : Node) (stale : Bool)
      → (node.stale ≡ true → stale ≡ true)
      → Aged node (record node { stale = stale })

-- The slots hold the same nodes, but for being stale.
pub data AllAged : List (Option Node) → List (Option Node) → Type 0 where
  done : AllAged [] []
  skip : {xs ys : List (Option Node)} → AllAged xs ys → AllAged (none ∷ xs) (none ∷ ys)
  next :
      {x y : Node} {xs ys : List (Option Node)}
      → Aged x y
      → AllAged xs ys
      → AllAged (some x ∷ xs) (some y ∷ ys)

pub AllAged-present :
    {xs ys : List (Option Node)}
    → AllAged xs ys
    → (i : ℕ) → is_some (DenseMap.slot ys i) ≡ is_some (DenseMap.slot xs i)
unfolding DenseMap.slot
AllAged-present done i = refl
AllAged-present (skip a) zero = refl
AllAged-present (skip a) (suc i) = AllAged-present a i
AllAged-present (next x a) zero = refl
AllAged-present (next x a) (suc i) = AllAged-present a i

survey_node-Aged :
    (threshold id : ℕ) (node : Node) (s : Survey) → Aged node (survey_node threshold id node s).0
unfolding survey_node Node.update_stale
survey_node-Aged threshold id node s = elim (Bool-cases (ltb node.best.block_timestamp threshold)) [
  | inl e ↦ rw e (aged node true (λ _. refl))
  | inr e ↦ rw e (aged node node.stale (λ h. h))
]

-- The best block of the survey never goes down, and covers a node that is not stale.
survey_node-best :
    (threshold id : ℕ) (node : Node) (s : Survey)
    → (s.best.height ≤ (survey_node threshold id node s).1.best.height)
      × IsUnder (survey_node threshold id node s).1.best.height (survey_node threshold id node s).0
unfolding survey_node Node.update_stale
survey_node-best threshold id node s = ground arith

pub survey_nodes-Aged :
    (threshold id : ℕ) (slots : List (Option Node)) (s : Survey)
    → AllAged slots (survey_nodes threshold id slots s).0
unfolding survey_nodes
survey_nodes-Aged threshold id [] s = done
survey_nodes-Aged threshold id (none ∷ slots) s =
    skip (survey_nodes-Aged threshold (suc id) slots s)
survey_nodes-Aged threshold id (some node ∷ slots) s =
    next (survey_node-Aged threshold id node s)
      (survey_nodes-Aged threshold (suc id) slots (survey_node threshold id node s).1)

-- The best block that is found is not below that of any node that is not stale.
pub survey_nodes-best :
    (threshold id : ℕ) (slots : List (Option Node)) (s : Survey)
    → (s.best.height ≤ (survey_nodes threshold id slots s).1.best.height)
      × All
          (IsUnder (survey_nodes threshold id slots s).1.best.height)
          (contents (survey_nodes threshold id slots s).0)
unfolding survey_nodes
survey_nodes-best threshold id [] s = ((omega arith), tt)
survey_nodes-best threshold id (none ∷ slots) s = survey_nodes-best threshold (suc id) slots s
survey_nodes-best threshold id (some node ∷ slots) s =
    let (up, under) = survey_node-best threshold id node s in
    let (up', all) =
      survey_nodes-best threshold (suc id) slots (survey_node threshold id node s).1 in
    ((omega arith), ((λ fresh. let below = under fresh in omega arith), all))

-- A node that is not stale has the block as its best one.
abbrev pub HasBest : Block → Node → Type 0
HasBest block node = (node.stale ≡ false) × (node.best.block ≡ block)

survey_node-found :
    (threshold id : ℕ) (node : Node) (s : Survey)
    → ((survey_node threshold id node s).1.best ≡ s.best)
      ⊎ HasBest (survey_node threshold id node s).1.best (survey_node threshold id node s).0
unfolding survey_node Node.update_stale
survey_node-found threshold id node s =
    elim (Bool-cases (ltb node.best.block_timestamp threshold)) [
      | inl e ↦ rw e (inl refl)
      | inr e ↦ rw e (elim (Bool-cases node.stale) [
        | inl t ↦ rw t (inl refl)
        | inr f ↦ elim (Bool-cases (ltb s.best.height node.best.block.height)) [
          | inl h ↦ rw (f, h) (inr (refl, refl))
          | inr h ↦ rw (f, h) (inl refl)
        ]
      ])
    ]

-- A node among the list.
pub data Among (P : Node → Type 0) : List Node → Type 0 where
  first : {node : Node} {nodes : List Node} → P node → Among P (node ∷ nodes)
  later : {node : Node} {nodes : List Node} → Among P nodes → Among P (node ∷ nodes)

pub survey_nodes-found :
    (threshold id : ℕ) (slots : List (Option Node)) (s : Survey)
    → ((survey_nodes threshold id slots s).1.best ≡ s.best)
      ⊎ Among
          (HasBest (survey_nodes threshold id slots s).1.best)
          (contents (survey_nodes threshold id slots s).0)
unfolding survey_nodes
survey_nodes-found threshold id [] s = inl refl
survey_nodes-found threshold id (none ∷ slots) s = survey_nodes-found threshold (suc id) slots s
survey_nodes-found threshold id (some node ∷ slots) s =
    elim (survey_nodes-found threshold (suc id) slots (survey_node threshold id node s).1) [
      | inr further ↦ inr (later further)
      | inl same ↦ elim (survey_node-found threshold id node s) [
        | inl before ↦ inl (same ∙ before)
        | inr this ↦ inr (
            first
              (subst (λ block. HasBest block (survey_node threshold id node s).0) (sym same) this))
      ]
    ]

-- What the statistics and the slots see of nodes that have aged.
Aged-sample : {x y : Node} → Aged x y → sample y ≡ sample x
Aged-sample (aged node stale h) = refl

pub AllAged-samples :
    {xs ys : List (Option Node)}
    → AllAged xs ys
    → map sample (contents ys) ≡ map sample (contents xs)
AllAged-samples done = refl
AllAged-samples (skip a) = AllAged-samples a
AllAged-samples (next {x} {y} {xs} {ys} a rest) =
    ap (λ s. s ∷ map sample (contents ys)) (Aged-sample a)
    ∙ ap (◌∷◌ (sample x)) (AllAged-samples rest)

pub AllAged-vacant :
    {xs ys : List (Option Node)} → AllAged xs ys → (i : ℕ) → Slots.vacant ys i ≡ Slots.vacant xs i
AllAged-vacant done i = refl
AllAged-vacant (skip a) zero = refl
AllAged-vacant (skip a) (suc i) = AllAged-vacant a i
AllAged-vacant (next a rest) zero = refl
AllAged-vacant (next a rest) (suc i) = AllAged-vacant rest i

pub AllAged-sizes :
    {xs ys : List (Option Node)}
    → AllAged xs ys
    → (Slots.occupied ys ≡ Slots.occupied xs) × (length ys ≡ length xs)
AllAged-sizes done = (refl, refl)
AllAged-sizes (skip a) = let (o, l) = AllAged-sizes a in (o, ap suc l)
AllAged-sizes (next a rest) = let (o, l) = AllAged-sizes rest in (ap suc o, ap suc l)

Aged-measured : {x y : Node} → Aged x y → Measurements.IsValid x → Measurements.IsValid y
Aged-measured (aged node stale h) v = record {
  upload = v.upload;
  download = v.download;
  chart_stamps = v.chart_stamps;
  state_cache = v.state_cache;
}

pub AllAged-measured :
    {xs ys : List (Option Node)}
    → AllAged xs ys
    → All Measurements.IsValid (contents xs)
    → All Measurements.IsValid (contents ys)
AllAged-measured done v = tt
AllAged-measured (skip a) v = AllAged-measured a v
AllAged-measured (next a rest) v = (Aged-measured a v.0, AllAged-measured rest v.1)

Aged-IsUnder : (height : ℕ) {x y : Node} → Aged x y → IsUnder height x → IsUnder height y
Aged-IsUnder height (aged node stale h) under fresh = elim (Bool-cases node.stale) [
  | inl t ↦ absurd (let up = h t in cc)
  | inr f ↦ under f
]

pub AllAged-IsUnder :
    (height : ℕ) {xs ys : List (Option Node)}
    → AllAged xs ys
    → All (IsUnder height) (contents xs)
    → All (IsUnder height) (contents ys)
AllAged-IsUnder height done v = tt
AllAged-IsUnder height (skip a) v = AllAged-IsUnder height a v
AllAged-IsUnder height (next a rest) v =
    (Aged-IsUnder height a v.0, AllAged-IsUnder height rest v.1)
