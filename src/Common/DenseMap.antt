-- ===== src/Common/DenseMap.antt =====
-- backend/common/src/dense_map.rs: items in slots, with the free slots kept for reuse. An Id is its
-- `usize`. The head of `retired` is the back of the vector. A write out of range is a panic.
pub mod Slots
pub mod Contents
pub mod Allocation
mod Examples
use substrate_telemetry.Prelude.{
  ℕ, zero, suc, Bool, Option, none, some, List, [], ◌∷◌, ◌++◌, Run, ok, panic, length, set, sub64,
  ltb, if◌then◌else◌, ◌==◌,
}

pub record DenseMap {ℓ} (T : Type ℓ) : Type ℓ where
  pub retired : List ℕ
  pub items : List (Option T)

module _ {ℓ} {T : Type ℓ} where
  unfoldable pub new : DenseMap T
  new = record { retired = []; items = [] }

  -- The two branches of `add_with`: on the popped Id, and on a new slot.
  reuse : DenseMap T → (ℕ → T) → ℕ → List ℕ → Run (DenseMap T × ℕ)
  reuse m f id rest =
      if ltb id (length m.items)
      then ok (record { retired = rest; items = set m.items id (some (f id)) }, id)
      else panic

  extend : DenseMap T → (ℕ → T) → DenseMap T × ℕ
  extend m f = let id = length m.items in (record m { items = m.items ++ some (f id) ∷ [] }, id)

  pub add_with : DenseMap T → (ℕ → T) → Run (DenseMap T × ℕ)
  unfolding reuse extend
  add_with m f = elim m.retired [ id ∷ rest ↦ reuse m f id rest | [] ↦ ok (extend m f) ]

  pub add : DenseMap T → T → Run (DenseMap T × ℕ)
  unfolding add_with
  add m item = add_with m (λ _. item)

  -- A slot out of range and an empty slot read alike.
  unfoldable pub slot : List (Option T) → ℕ → Option T
  slot [] i = none
  slot (x ∷ xs) zero = x
  slot (x ∷ xs) (suc i) = slot xs i

  unfoldable pub get : DenseMap T → ℕ → Option T
  unfolding slot
  get m id = slot m.items id

  -- A write through the reference that `get_mut` returns.
  pub put : DenseMap T → ℕ → T → DenseMap T
  put m id item = record m { items = set m.items id (some item) }

  pub remove : DenseMap T → ℕ → DenseMap T × Option T
  unfolding get
  remove m id = elim (get m id) [
    | some old ↦ (record { retired = id ∷ m.retired; items = set m.items id none }, some old)
    | none ↦ (m, none)
  ]

  -- `iter` and `into_iter`, from the slot `i` on.
  pub entries : ℕ → List (Option T) → List (ℕ × T)
  entries i [] = []
  entries i (none ∷ xs) = entries (suc i) xs
  entries i (some x ∷ xs) = (i, x) ∷ entries (suc i) xs

  pub iter : DenseMap T → List (ℕ × T)
  unfolding entries
  iter m = entries 0 m.items

  pub len : DenseMap T → ℕ
  len m = sub64 (length m.items) (length m.retired)

  pub is_empty : DenseMap T → Bool
  unfolding len
  is_empty m = len m == 0

  pub next_id : DenseMap T → ℕ
  next_id m = elim m.retired [ id ∷ rest ↦ id | [] ↦ length m.items ]
