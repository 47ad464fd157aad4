-- ===== src/Core/Chain/Stale/Freshness.antt =====
-- What `update_stale_nodes` and `regenerate_stats_if_necessary` do to a chain.
use substrate_telemetry.Prelude.{
  ℕ, ◌-◌, ◌≡◌, refl, subst, sym, ap, ◌∙◌, ◌≢◌, ◌⊎◌, inl, inr, if_pos, if_neg, false, ◌&&◌, Option,
  none, some, List, [], ltb, ◌==◌, arith, Bool-cases, All, sub64,
}
use substrate_telemetry.Common.DenseMap.{DenseMap}
use substrate_telemetry.Common.DenseMap
use substrate_telemetry.Common.DenseMap.Slots
use substrate_telemetry.Common.DenseMap.Contents.{contents}
use substrate_telemetry.Common.DenseMap.Allocation.{len-occupied}
use substrate_telemetry.Common.NumStats.{NumStats}
use substrate_telemetry.Common.NumStats
use substrate_telemetry.Common.NumStats.History.{reset_width}
use substrate_telemetry.Common.NodeTypes.{Block, Timestamp, zero_block}
use substrate_telemetry.Core.ChainStats.{ChainStats, F64}
use substrate_telemetry.Core.ChainStats
use substrate_telemetry.Core.ChainStats.Samples.{HoldsSamples}
use substrate_telemetry.Core.Node.{Node}
use substrate_telemetry.Core.Chain.{Chain, stale_timeout, stats_update_interval}
use substrate_telemetry.Core.Chain.Validity.{IsUnder, IsValid, Kept, raise-IsValid}
use substrate_telemetry.Core.Feed.{Feed}
use substrate_telemetry.Core.Chain.Stale.{
  ChainStats_discrete, empty_survey, refresh, regenerate_stats_if_necessary, survey_nodes,
  refresh_unless_recent, update_stale_nodes,
}
use substrate_telemetry.Core.Chain.Stale.Aging.{
  AllAged, AllAged-measured, AllAged-samples, AllAged-sizes, AllAged-IsUnder, AllAged-vacant,
  AllAged-present, Among, HasBest, survey_nodes-Aged, survey_nodes-best, survey_nodes-found,
}

refresh_unless_recent_cases :
    (now : ℕ) (c : Chain) (timestamp : Option Timestamp)
    → (refresh_unless_recent now c timestamp ≡ (c, []))
      ⊎ (refresh_unless_recent now c timestamp ≡ refresh now (sub64 now stale_timeout) c)
unfolding refresh_unless_recent
refresh_unless_recent_cases now c none = inl refl
refresh_unless_recent_cases now c (some t) = elim (Bool-cases (ltb (sub64 now stale_timeout) t)) [
  | inl h ↦ inl (rw h refl)
  | inr h ↦ inr (rw h refl)
]

regenerate_stats_cases :
    (instant : ℕ) (c : Chain)
    → ((regenerate_stats_if_necessary instant c).0 ≡ c)
      ⊎ ((stats : ChainStats) × ((regenerate_stats_if_necessary instant c).0
            ≡ record c { stats = stats; stats_last_regenerated = instant }))
unfolding regenerate_stats_if_necessary
regenerate_stats_cases instant c =
    let fresh = ChainStats.generate c.stats_collator in
    elim (Bool-cases (ltb (instant - c.stats_last_regenerated) stats_update_interval)) [
      | inl e ↦ inl (rw e refl)
      | inr e ↦ elim (ChainStats_discrete fresh c.stats) [
        | yes p ↦ inr (
          c.stats,
          rw e (ap (λ (r : Chain × Feed). r.0) (if_pos (ChainStats_discrete fresh c.stats) p _ _)),
        )
        | no p ↦ inr (
          fresh,
          rw e (ap (λ (r : Chain × Feed). r.0) (if_neg (ChainStats_discrete fresh c.stats) p _ _)),
        )
      ]
    ]

module _ (f64 : F64) where
  -- The slots of a valid chain with aged nodes, under a best block that covers them.
  aged-IsValid :
      (c : Chain) (slots : List (Option Node)) (best : Block)
      → IsValid f64 c
      → AllAged c.nodes.items slots
      → All (IsUnder best.height) (contents slots)
      → IsValid f64 (record c { nodes = record (c.nodes) { items = slots }; best = best })
  aged-IsValid c slots best v a u =
      let (o, l) = AllAged-sizes a in
      let nodes : DenseMap Node = record (c.nodes) { items = slots } in
      let valid : Slots.IsValid nodes = record {
        slots = λ i. v.slots.slots i ∙ sym (AllAged-vacant a i);
        sized = omega (arith, v.slots.sized, o, l);
      } in
      record {
        slots = valid;
        samples = subst (HoldsSamples f64 c.stats_collator) (sym (AllAged-samples a)) v.samples;
        quota = omega (arith, v.quota, o, len-occupied c.nodes v.slots, len-occupied nodes valid);
        times = v.times;
        measured = AllAged-measured a v.measured;
        heights = u;
      }

  refresh-Kept :
      (now threshold : ℕ) (c : Chain) → IsValid f64 c → Kept f64 c (refresh now threshold c).0
  unfolding refresh DenseMap.get
  refresh-Kept now threshold c v =
      let a = survey_nodes-Aged threshold 0 c.nodes.items empty_survey in
      let (up, under) = survey_nodes-best threshold 0 c.nodes.items empty_survey in
      elim (Bool-cases (c.best.height == 0 && c.finalized.height == 0)) [
        | inl e ↦
            let w = aged-IsValid c _ c.best v a (AllAged-IsUnder c.best.height a v.heights) in
            rw e (record { valid = w; genesis_hash = refl; present = AllAged-present a })
        | inr e ↦
            let s = (survey_nodes threshold 0 c.nodes.items empty_survey).1 in
            let w = aged-IsValid c _ s.best v a under in
            rw e (record {
              valid =
                  raise-IsValid f64 _ s.best s.finalized (NumStats.reset c.block_times)
                    c.average_block_time s.timestamp c.stats c.stats_last_regenerated w
                    (reset_width c.block_times ∙ v.times) (omega arith);
              genesis_hash = refl;
              present = AllAged-present a;
            })
      ]

  -- Looking for stale nodes keeps the chain valid.
  pub update_stale_nodes-Kept :
      (now : ℕ) (c : Chain) → IsValid f64 c → Kept f64 c (update_stale_nodes now c).0
  unfolding update_stale_nodes
  update_stale_nodes-Kept now c v = elim (refresh_unless_recent_cases now c c.timestamp) [
    | inl e ↦ rw e (record { valid = v; genesis_hash = refl; present = λ j. refl })
    | inr e ↦ rw e (refresh-Kept now (sub64 now stale_timeout) c v)
  ]

  pub regenerate_stats-Kept :
      (instant : ℕ) (c : Chain)
      → IsValid f64 c
      → Kept f64 c (regenerate_stats_if_necessary instant c).0
  regenerate_stats-Kept instant c v = elim (regenerate_stats_cases instant c) [
    | inl e ↦ rw e (record { valid = v; genesis_hash = refl; present = λ j. refl })
    | inr (stats, e) ↦ subst (Kept f64 c) (sym e) (record {
      valid =
          raise-IsValid f64 c c.best c.finalized c.block_times c.average_block_time c.timestamp
            stats instant v v.times (omega arith);
      genesis_hash = refl;
      present = λ j. refl;
    })
  ]

  -- After a refresh with any block known before, the best block is the highest among the nodes that
  -- are not stale, or zero if they have none.
  pub refresh-highest :
      (now threshold : ℕ) (c : Chain)
      → (c.best.height ≢ 0) ⊎ (c.finalized.height ≢ 0)
      → All
          (IsUnder (refresh now threshold c).0.best.height)
          (contents (refresh now threshold c).0.nodes.items)
        × (((refresh now threshold c).0.best ≡ zero_block)
            ⊎ Among
                (HasBest (refresh now threshold c).0.best)
                (contents (refresh now threshold c).0.nodes.items))
  unfolding refresh
  refresh-highest now threshold c h =
      let e : c.best.height == 0 && c.finalized.height == 0 ≡ false = ground arith in
      rw e (
        (survey_nodes-best threshold 0 c.nodes.items empty_survey).1,
        survey_nodes-found threshold 0 c.nodes.items empty_survey,
      )
