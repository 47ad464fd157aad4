-- ===== src/Common/BiMap.antt =====
-- What backend/common/src/assign_id.rs and backend/telemetry_core/src/aggregator/inner_loop.rs use of
-- the crate `bimap`: its operations, and what its documentation promises of them.
pub mod Pairs
use substrate_telemetry.Prelude.{◌≡◌, ite, Option, none, some, List, Key, nat_key}
use substrate_telemetry.Prelude.HashMap

-- A map between left values and details, at most one to one.
pub record BiMap (L D : Type 0) : Type 1 where
  pub Map : Type 0
  pub new : Map
  pub insert : L → D → Map → Map
  pub get_by_left : L → Map → Option D
  pub get_by_right : D → Map → Option L
  pub remove_by_left : L → Map → Map
  pub remove_by_right : D → Map → Map
  pub iter : Map → List (L × D)

-- A left value's details once `d` is taken from it.
abbrev pub without : {D : Type 0} ⦃key : Key D⦄ → D → Option D → Option D
without d none = none
without ⦃key⦄ d (some e) = ite (key.dec d e) none (some e)

-- Inserting a pair overwrites what conflicts with it on either side, the two lookups are inverse
-- to each other, and the iterator yields each pair once.
pub record IsBiMap {L D : Type 0} ⦃left : Key L⦄ ⦃key : Key D⦄ (bimap : BiMap L D) : Type 0 where
  pub to_right :
      (i : L) (d : D) (m : bimap.Map)
      → bimap.get_by_left i m ≡ some d
      → bimap.get_by_right d m ≡ some i
  pub to_left :
      (i : L) (d : D) (m : bimap.Map)
      → bimap.get_by_right d m ≡ some i
      → bimap.get_by_left i m ≡ some d
  pub left-new : (i : L) → bimap.get_by_left i bimap.new ≡ none
  pub left-insert :
      (i j : L) (d : D) (m : bimap.Map)
      → bimap.get_by_left j (bimap.insert i d m)
        ≡ ite (left.dec i j) (some d) (without d (bimap.get_by_left j m))
  pub left-remove_by_left :
      (i j : L) (m : bimap.Map)
      → bimap.get_by_left j (bimap.remove_by_left i m)
        ≡ ite (left.dec i j) none (bimap.get_by_left j m)
  pub left-remove_by_right :
      (d : D) (j : L) (m : bimap.Map)
      → bimap.get_by_left j (bimap.remove_by_right d m) ≡ without d (bimap.get_by_left j m)
  pub iter-IsMap : (m : bimap.Map) → HashMap.IsMap (bimap.iter m)
  pub get-iter : (i : L) (m : bimap.Map) → HashMap.get i (bimap.iter m) ≡ bimap.get_by_left i m
