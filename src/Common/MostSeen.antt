-- ===== src/Common/MostSeen.antt =====
-- backend/common/src/most_seen.rs: the item seen most often, and the counts of the others. Counts
-- stay below 2^64: each stands for a call of `insert` or `remove`.
pub mod Counts
mod Examples
use substrate_telemetry.Prelude.{
  ℕ, ◌+◌, ◌-◌, ite, Bool, true, false, Option, none, some, [], ◌∷◌, Key, ltb, if◌then◌else◌,
}
use substrate_telemetry.Prelude.HashMap
use substrate_telemetry.Prelude.HashMap.{HashMap, or_zero}

pub record MostSeen (T : Type 0) : Type 0 where
  pub current_best : T
  pub current_count : ℕ
  pub others : HashMap T ℕ

pub data ChangeResult : Type 0 where
  no_change new_most_seen_item : ChangeResult

abbrev pub has_changed : ChangeResult → Bool
has_changed new_most_seen_item = true
has_changed no_change = false

module _ {T : Type 0} where
  -- `Default::default()`, from the default of `T`.
  pub default : T → MostSeen T
  default t = record { current_best = t; current_count = 0; others = [] }

  pub new : T → MostSeen T
  new item = record { current_best = item; current_count = 1; others = [] }

  -- `others.iter().max_by_key(|f| f.1)`: of equal counts, the last entry.
  pub max_entry : HashMap T ℕ → Option (T × ℕ)
  max_entry [] = none
  max_entry (e ∷ m) = elim (max_entry m) [
    | none ↦ some e
    | some b ↦ if ltb b.1 e.1 then some e else some b
  ]

module _ {T : Type 0} ⦃key : Key T⦄ where
  -- The entry of `item` leaves `others`, and the old best takes its place there.
  swap_best : MostSeen T → T → ℕ → HashMap T ℕ → MostSeen T
  swap_best m item count others = record {
    current_best = item;
    current_count = count;
    others = HashMap.insert m.current_best m.current_count (HashMap.remove item others);
  }

  -- `insert`, for an item that is not the best, with its new count.
  insert_other : MostSeen T → T → ℕ → MostSeen T × ChangeResult
  unfolding swap_best
  insert_other m item count =
      let others = HashMap.insert item count m.others in
      if ltb m.current_count count
      then (swap_best m item count others, new_most_seen_item)
      else (record m { others = others }, no_change)

  pub insert : T → MostSeen T → MostSeen T × ChangeResult
  unfolding insert_other
  insert item m =
      ite (key.dec m.current_best item)
        (record m { current_count = m.current_count + 1 }, no_change)
        (insert_other m item (or_zero (HashMap.get item m.others) + 1))

  -- `remove`, for the best item, once its count is reduced.
  demote : MostSeen T → Option (T × ℕ) → MostSeen T × ChangeResult
  unfolding swap_best
  demote m none = (m, no_change)
  demote m (some e) =
      if ltb m.current_count e.1
      then (swap_best m e.0 e.1 m.others, new_most_seen_item)
      else (m, no_change)

  -- `remove`, for another item: `*count += 1` where the item is known.
  bump_other : MostSeen T → T → Option ℕ → MostSeen T
  bump_other m item none = m
  bump_other m item (some c) = record m { others = HashMap.insert item (c + 1) m.others }

  pub remove : T → MostSeen T → MostSeen T × ChangeResult
  unfolding demote bump_other max_entry
  remove item m =
      ite (key.dec m.current_best item)
        (demote (record m { current_count = m.current_count - 1 }) (max_entry m.others))
        (bump_other m item (HashMap.get item m.others), no_change)
