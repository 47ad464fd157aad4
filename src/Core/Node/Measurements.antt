-- ===== src/Core/Node/Measurements.antt =====
-- The measurements of a node: its four lists of means stay valid, whatever the node reports.
use substrate_telemetry.Prelude.{
  ℕ, ◌≡◌, refl, subst, sym, ◌∙◌, ◌⊎◌, inl, inr, if_pos, if_neg, true, false, Option, none, some,
  Text, text_key, Returns, Run-cases, Returns-mono,
}
use substrate_telemetry.Common.MeanList.{Float, MeanList}
use substrate_telemetry.Common.MeanList
use substrate_telemetry.Common.MeanList.Bounds
use substrate_telemetry.Common.MeanList.Bounds.{default-IsValid, push-IsValid}
use substrate_telemetry.Common.NodeMessage.{SystemInterval}
use substrate_telemetry.Common.NodeTypes
use substrate_telemetry.Common.NodeTypes.{NodeDetails, NodeHardware, NodeIo}
use substrate_telemetry.Core.Node.{
  Floats, Node, change_validator, new, set_validator_address, push_optional, update_hardware,
  update_io, update_stats,
}

pub record IsValid (node : Node) : Type 0 where
  pub upload : Bounds.IsValid node.hardware.upload
  pub download : Bounds.IsValid node.hardware.download
  pub chart_stamps : Bounds.IsValid node.hardware.chart_stamps
  pub state_cache : Bounds.IsValid node.io.used_state_cache_size

pub new-IsValid :
    (floats : Floats) (now : ℕ) (details : NodeDetails) → IsValid (new floats now details)
unfolding new NodeTypes.default_hardware NodeTypes.default_io
new-IsValid floats now details = record {
  upload = default-IsValid floats.f64;
  download = default-IsValid floats.f64;
  chart_stamps = default-IsValid floats.f64;
  state_cache = default-IsValid floats.f32;
}

push_optional-IsValid :
    (float : Float) (value : Option ℕ) (list : MeanList)
    → Bounds.IsValid list
    → Returns (push_optional float value list) (λ r. Bounds.IsValid r.0)
unfolding push_optional
push_optional-IsValid float none list v = v
push_optional-IsValid float (some value) list v =
    Returns-mono (MeanList.push float list value) _ _ (push-IsValid float list value v) (λ r h. h.0)

-- What a report of the measurements leaves alone.
pub record Remeasured (node node' : Node) : Type 0 where
  pub valid : IsValid node'
  pub details : node'.details ≡ node.details
  pub hwbench : node'.hwbench ≡ node.hwbench
  pub best : node'.best ≡ node.best
  pub stale : node'.stale ≡ node.stale

pub update_hardware-Remeasured :
    (floats : Floats) (now : ℕ) (interval : SystemInterval) (node : Node)
    → IsValid node
    → Returns (update_hardware floats now interval node) (λ r. Remeasured node r.0)
unfolding update_hardware
update_hardware-Remeasured floats now interval node v =
    let (up, e1, h1) =
      Run-cases _ (push_optional floats.f64 interval.bandwidth_upload node.hardware.upload)
        (push_optional-IsValid floats.f64 interval.bandwidth_upload _ v.upload) in
    let (down, e2, h2) =
      Run-cases _ (push_optional floats.f64 interval.bandwidth_download node.hardware.download)
        (push_optional-IsValid floats.f64 interval.bandwidth_download _ v.download) in
    let (stamps, e3, h3) =
      Run-cases _ (MeanList.push floats.f64 node.hardware.chart_stamps (floats.f64.from_u64 now)) (
        push-IsValid floats.f64 node.hardware.chart_stamps (floats.f64.from_u64 now)
          v.chart_stamps) in
    rw (e1, e2, e3)
      (record {
        valid = record {
          upload = h1;
          download = h2;
          chart_stamps = h3.0;
          state_cache = v.state_cache;
        };
        details = refl;
        hwbench = refl;
        best = refl;
        stale = refl;
      })

pub update_io-Remeasured :
    (floats : Floats) (interval : SystemInterval) (node : Node)
    → IsValid node
    → Returns (update_io floats interval node) (λ r. Remeasured node r.0)
unfolding update_io
update_io-Remeasured floats interval node v =
    let (size, e, h) =
      Run-cases _
        (push_optional floats.f32 interval.used_state_cache_size node.io.used_state_cache_size)
        (push_optional-IsValid floats.f32 interval.used_state_cache_size _ v.state_cache) in
    rw e (record {
      valid = record {
        upload = v.upload;
        download = v.download;
        chart_stamps = v.chart_stamps;
        state_cache = h;
      };
      details = refl;
      hwbench = refl;
      best = refl;
      stale = refl;
    })

-- Nothing but the measurements counts.
pub measured_alike : (x y : Node) → y.hardware ≡ x.hardware → y.io ≡ x.io → IsValid x → IsValid y
measured_alike x y h i v = record {
  upload = subst (λ (a : NodeHardware). Bounds.IsValid a.upload) (sym h) v.upload;
  download = subst (λ (a : NodeHardware). Bounds.IsValid a.download) (sym h) v.download;
  chart_stamps = subst (λ (a : NodeHardware). Bounds.IsValid a.chart_stamps) (sym h) v.chart_stamps;
  state_cache =
      subst (λ (a : NodeIo). Bounds.IsValid a.used_state_cache_size) (sym i) v.state_cache;
}

pub update_stats-Remeasured :
    (interval : SystemInterval) (node : Node)
    → IsValid node
    → Remeasured node (update_stats interval node).0
unfolding update_stats
update_stats-Remeasured interval node v = record {
  valid = measured_alike node (update_stats interval node).0 refl refl v;
  details = refl;
  hwbench = refl;
  best = refl;
  stale = refl;
}

pub Remeasured-trans : {x y z : Node} → Remeasured x y → Remeasured y z → Remeasured x z
Remeasured-trans f g = record {
  valid = g.valid;
  details = g.details ∙ f.details;
  hwbench = g.hwbench ∙ f.hwbench;
  best = g.best ∙ f.best;
  stale = g.stale ∙ f.stale;
}

change_validator_cases :
    (addr : Text) (node : Node) (old : Option Text)
    → (change_validator addr node old ≡ (node, false))
      ⊎ (change_validator addr node old
          ≡ (record node { details = record (node.details) { validator = some addr } }, true))
unfolding change_validator
change_validator_cases addr node none = inr refl
change_validator_cases addr node (some old) = elim (text_key.dec old addr) [
  | yes p ↦ inl (if_pos (text_key.dec old addr) p _ _)
  | no p ↦ inr (if_neg (text_key.dec old addr) p _ _)
]

-- A validator's address changes at most that.
pub set_validator_address_cases :
    (addr : Text) (node : Node)
    → (set_validator_address addr node ≡ (node, false))
      ⊎ (set_validator_address addr node
          ≡ (record node { details = record (node.details) { validator = some addr } }, true))
unfolding set_validator_address
set_validator_address_cases addr node = change_validator_cases addr node node.details.validator
