-- ===== src/Common/AssignId.antt =====
-- backend/common/src/assign_id.rs: ids assigned to details, counted up from zero. The two-way map is
-- the crate `bimap`'s, an argument here.
use substrate_telemetry.Prelude.{ℕ, Option, List, add64}
use substrate_telemetry.Common.BiMap.{BiMap}

pub record AssignId {D : Type 0} (bimap : BiMap ℕ D) : Type 0 where
  pub current_id : ℕ
  pub mapping : bimap.Map

module _ {D : Type 0} {bimap : BiMap ℕ D} where
  unfoldable pub assign_id : D → AssignId bimap → AssignId bimap × ℕ
  assign_id details a = (
    record {
      current_id = add64 a.current_id 1;
      mapping = bimap.insert a.current_id details a.mapping;
    },
    a.current_id,
  )

  unfoldable pub get_details : ℕ → AssignId bimap → Option D
  get_details id a = bimap.get_by_left id a.mapping

  unfoldable pub get_id : D → AssignId bimap → Option ℕ
  get_id details a = bimap.get_by_right details a.mapping

  unfoldable pub remove_by_id : ℕ → AssignId bimap → AssignId bimap × Option D
  remove_by_id id a =
      (record a { mapping = bimap.remove_by_left id a.mapping }, bimap.get_by_left id a.mapping)

  unfoldable pub remove_by_details : D → AssignId bimap → AssignId bimap × Option ℕ
  remove_by_details details a = (
    record a { mapping = bimap.remove_by_right details a.mapping },
    bimap.get_by_right details a.mapping,
  )

  -- The counter stays as it is, so that no id is used twice.
  unfoldable pub clear : AssignId bimap → AssignId bimap
  clear a = record a { mapping = bimap.new }

  unfoldable pub iter : AssignId bimap → List (ℕ × D)
  iter a = bimap.iter a.mapping

unfoldable pub new : {D : Type 0} (bimap : BiMap ℕ D) → AssignId bimap
new bimap = record { current_id = 0; mapping = bimap.new }
