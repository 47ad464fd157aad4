-- ===== src/Common/MultiMapUnique.antt =====
-- backend/common/src/multi_map_unique.rs: a map from keys to sets of values, in which a value
-- belongs to one key at a time. A `HashSet` is a map to `Unit`.
pub mod Refinement
pub mod Histories
mod Examples
use substrate_telemetry.Prelude.{ℕ, Option, none, some, [], ◌∷◌, Key, length}
use substrate_telemetry.Prelude.HashMap
use substrate_telemetry.Prelude.HashMap.{HashMap}

pub record MultiMapUnique (K V : Type 0) : Type 0 where
  pub value_to_key : HashMap V K
  pub key_to_values : HashMap K (HashMap V Unit)

module _ {K V : Type 0} where
  unfoldable pub new : MultiMapUnique K V
  new = record { value_to_key = []; key_to_values = [] }

  pub num_values : MultiMapUnique K V → ℕ
  num_values m = length m.value_to_key

  pub num_keys : MultiMapUnique K V → ℕ
  num_keys m = length m.key_to_values

-- `key_to_values.entry(key).or_default()`
or_default : {V : Type 0} → Option (HashMap V Unit) → HashMap V Unit
or_default none = []
or_default (some s) = s

module _ {K V : Type 0} ⦃key : Key K⦄ ⦃val : Key V⦄ where
  unfoldable pub get_values : K → MultiMapUnique K V → Option (HashMap V Unit)
  get_values k m = HashMap.get k m.key_to_values

  -- The set of `k` without one of its values; an empty set takes its key along.
  set_or_remove : K → HashMap V Unit → HashMap K (HashMap V Unit) → HashMap K (HashMap V Unit)
  set_or_remove k [] sets = HashMap.remove k sets
  set_or_remove k (e ∷ s) sets = HashMap.insert k (e ∷ s) sets

  -- `if let Some(m) = self.key_to_values.get_mut(&key)`
  remove_from_set :
      V → K → Option (HashMap V Unit) → HashMap K (HashMap V Unit) → HashMap K (HashMap V Unit)
  unfolding set_or_remove
  remove_from_set v k none sets = sets
  remove_from_set v k (some s) sets = set_or_remove k (HashMap.remove v s) sets

  -- `if let Some(key) = self.value_to_key.remove(value)`
  remove_found : V → Option K → MultiMapUnique K V → MultiMapUnique K V × Option K
  unfolding remove_from_set
  remove_found v none m = (m, none)
  remove_found v (some k) m = (
    record {
      value_to_key = HashMap.remove v m.value_to_key;
      key_to_values = remove_from_set v k (HashMap.get k m.key_to_values) m.key_to_values;
    },
    some k,
  )

  pub remove_value : V → MultiMapUnique K V → MultiMapUnique K V × Option K
  unfolding remove_found
  remove_value v m = remove_found v (HashMap.get v m.value_to_key) m

  add : K → V → MultiMapUnique K V → MultiMapUnique K V
  unfolding or_default
  add k v m = record {
    value_to_key = HashMap.insert v k m.value_to_key;
    key_to_values =
        HashMap.insert k (HashMap.insert v tt (or_default (HashMap.get k m.key_to_values)))
          m.key_to_values;
  }

  pub insert : K → V → MultiMapUnique K V → MultiMapUnique K V × Option K
  unfolding remove_value add
  insert k v m = let (removed, old_key) = remove_value v m in (add k v removed, old_key)
