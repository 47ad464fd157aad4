-- ===== src/Prelude/HashMap.antt =====
-- The standard library's `HashMap` and `HashSet`, as association lists: a map iterates in the
-- order of its list, and `IsMap` says that no key stands twice.
use Prim.Native.Nat.{ℕ, ◌+◌}
use mathlib.Core.Path.{◌≡◌, refl}
use mathlib.Core.Logic.{ite}
use mathlib.Core.List.{List, [], ◌∷◌}
use mathlib.Core.Option.{Option, none, some}
use native.Mathlib.Omega.{arith}
use substrate_telemetry.Prelude.Tests.{Key}
use substrate_telemetry.Prelude.Lists.{length}

abbrev pub HashMap {ℓ} : Type ℓ → Type ℓ → Type ℓ
HashMap K V = List (K × V)

module _ {ℓ} {K V : Type ℓ} ⦃key : Key K⦄ where
  unfoldable pub get : K → HashMap K V → Option V
  get k [] = none
  get k (e ∷ m) = ite (key.dec e.0 k) (some e.1) (get k m)

  unfoldable pub insert : K → V → HashMap K V → HashMap K V
  insert k v [] = (k, v) ∷ []
  insert k v (e ∷ m) = ite (key.dec e.0 k) ((e.0, v) ∷ m) (e ∷ insert k v m)

  unfoldable pub remove : K → HashMap K V → HashMap K V
  remove k [] = []
  remove k (e ∷ m) = let rest = remove k m in ite (key.dec e.0 k) rest (e ∷ rest)

  abbrev pub IsMap : HashMap K V → Type ℓ
  IsMap [] = Unit
  IsMap (e ∷ m) = (get e.0 m ≡ none) × IsMap m

module _ {ℓ} {K V : Type ℓ} ⦃key : Key K⦄ where
  pub get-insert :
      (k j : K) (v : V) (m : HashMap K V)
      → get j (insert k v m) ≡ ite (key.dec k j) (some v) (get j m)
  unfolding get insert
  get-insert k j v [] = refl
  get-insert k j v (e ∷ m) = ground (arith, get-insert k j v m)

  pub get-remove :
      (k j : K) (m : HashMap K V) → get j (remove k m) ≡ ite (key.dec k j) none (get j m)
  unfolding get remove
  get-remove k j [] = ground arith
  get-remove k j (e ∷ m) = ground (arith, get-remove k j m)

  pub insert-IsMap : (k : K) (v : V) (m : HashMap K V) → IsMap m → IsMap (insert k v m)
  unfolding insert get
  insert-IsMap k v [] h = (refl, tt)
  insert-IsMap k v (e ∷ m) h = ground (arith, insert-IsMap k v m h.1, get-insert k e.0 v m)

  pub remove-IsMap : (k : K) (m : HashMap K V) → IsMap m → IsMap (remove k m)
  unfolding remove get
  remove-IsMap k [] h = tt
  remove-IsMap k (e ∷ m) h = ground (arith, remove-IsMap k m h.1, get-remove k e.0 m)

  pub remove_absent : (k : K) (m : HashMap K V) → get k m ≡ none → remove k m ≡ m
  unfolding get remove
  remove_absent k [] h = refl
  remove_absent k (e ∷ m) h = ground (arith, remove_absent k m)

  pub length-insert :
      (k : K) (v : V) (m : HashMap K V) → get k m ≡ none → length (insert k v m) ≡ length m + 1
  unfolding get insert
  length-insert k v [] h = refl
  length-insert k v (e ∷ m) h = ground (arith, length-insert k v m)

  pub length-insert_over :
      (k : K) (v w : V) (m : HashMap K V) → get k m ≡ some w → length (insert k v m) ≡ length m
  unfolding get insert
  length-insert_over k v w [] h = ground arith
  length-insert_over k v w (e ∷ m) h = ground (arith, length-insert_over k v w m)

  pub length-remove :
      (k : K) (v : V) (m : HashMap K V)
      → IsMap m
      → get k m ≡ some v
      → length (remove k m) + 1 ≡ length m
  unfolding get remove
  length-remove k v [] u h = ground arith
  length-remove k v (e ∷ m) u h = ground (arith, length-remove k v m u.1, remove_absent k m)

-- `*map.entry(k).or_default()` of a number, and `map.get(k)` with zero for a missing key.
abbrev pub or_zero : Option ℕ → ℕ
or_zero none = 0
or_zero (some n) = n
