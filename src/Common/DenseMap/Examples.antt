-- ===== src/Common/DenseMap/Examples.antt =====
-- Runs of the functions of `DenseMap`, and its theorems on one map.
use substrate_telemetry.Prelude.{
  ℕ, zero, suc, ◌+◌, ◌≡◌, refl, none, some, [], ◌∷◌, arith, count, ok, ℕ_discrete,
}
use substrate_telemetry.Common.DenseMap.{DenseMap, add, add_with, get, iter, remove}
use substrate_telemetry.Common.DenseMap.Slots.{IsValid, vacant}
use substrate_telemetry.Common.DenseMap.Allocation.{Added, Removed, add_with-Added, remove-Removed}

-- Slot 0 is free, slot 1 holds 7.
abbrev one : DenseMap ℕ
one = record { retired = 0 ∷ []; items = none ∷ some 7 ∷ [] }

one-slots : (i : ℕ) → count i one.retired ≡ vacant one.items i
unfolding ℕ_discrete
one-slots zero = refl
one-slots (suc zero) = refl
one-slots (suc (suc i)) = ground arith

one-IsValid : IsValid one
one-IsValid = record { slots = one-slots; sized = refl }

one-get : get one 1 ≡ some 7
unfolding get
one-get = refl

-- Slots 0 and 2 are in use.
abbrev sparse : DenseMap ℕ
sparse = record { retired = 1 ∷ []; items = some 9 ∷ none ∷ some 7 ∷ [] }

add-reuses : add one 9 ≡ ok (record { retired = []; items = some 9 ∷ some 7 ∷ [] }, 0)
unfolding add
add-reuses = refl

iter-order : iter sparse ≡ (0, 9) ∷ (2, 7) ∷ []
unfolding iter
iter-order = refl

add_with-Added_example :
    (r : DenseMap ℕ × ℕ) × (add_with one (λ id. id + 40) ≡ ok r) × Added one (λ id. id + 40) r
add_with-Added_example = add_with-Added one (λ id. id + 40) one-IsValid

remove-Removed_example : ((remove one 1).1 ≡ some 7) × Removed one 1 7 (remove one 1).0
remove-Removed_example = remove-Removed one 1 7 one-IsValid one-get
