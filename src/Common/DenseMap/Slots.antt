-- ===== src/Common/DenseMap/Slots.antt =====
-- The slots of a `DenseMap`: which are free, and what each operation does to them.
use substrate_telemetry.Prelude.{
  ℕ, zero, suc, ◌+◌, ◌≤◌, ◌<◌, ◌≡◌, refl, ◌≢◌, ite, Option, none, some, List, [], ◌∷◌, ◌++◌, length,
  set, count, arith, ℕ_discrete,
}
use substrate_telemetry.Common.DenseMap.{DenseMap, slot}

module _ {ℓ} {T : Type ℓ} where
  -- 1 if the slot `i` exists and is empty.
  abbrev pub vacant : List (Option T) → ℕ → ℕ
  vacant [] i = 0
  vacant (none ∷ xs) zero = 1
  vacant (some x ∷ xs) zero = 0
  vacant (x ∷ xs) (suc i) = vacant xs i

  -- How many slots hold an item.
  abbrev pub occupied : List (Option T) → ℕ
  occupied [] = 0
  occupied (none ∷ xs) = occupied xs
  occupied (some x ∷ xs) = suc (occupied xs)

  -- Exactly the empty slots are retired, each once.
  pub record IsValid (m : DenseMap T) : Type 0 where
    pub slots : (i : ℕ) → count i m.retired ≡ vacant m.items i
    pub sized : length m.retired + occupied m.items ≡ length m.items

  pub vacant-lt : (xs : List (Option T)) (i : ℕ) → vacant xs i ≢ 0 → i < length xs
  vacant-lt [] i h = absurd (h refl)
  vacant-lt (none ∷ xs) zero h = omega arith
  vacant-lt (some x ∷ xs) zero h = omega arith
  vacant-lt (none ∷ xs) (suc i) h = omega (arith, vacant-lt xs i h)
  vacant-lt (some x ∷ xs) (suc i) h = omega (arith, vacant-lt xs i h)

  pub vacant-slot : (xs : List (Option T)) (i : ℕ) → vacant xs i ≢ 0 → slot xs i ≡ none
  unfolding slot
  vacant-slot [] i h = refl
  vacant-slot (none ∷ xs) zero h = refl
  vacant-slot (some x ∷ xs) zero h = absurd (h refl)
  vacant-slot (none ∷ xs) (suc i) h = vacant-slot xs i h
  vacant-slot (some x ∷ xs) (suc i) h = vacant-slot xs i h

  pub vacant-le-one : (xs : List (Option T)) (i : ℕ) → vacant xs i ≤ 1
  vacant-le-one [] i = omega arith
  vacant-le-one (none ∷ xs) zero = omega arith
  vacant-le-one (some x ∷ xs) zero = omega arith
  vacant-le-one (none ∷ xs) (suc i) = vacant-le-one xs i
  vacant-le-one (some x ∷ xs) (suc i) = vacant-le-one xs i

  pub vacant_taken : (xs : List (Option T)) (i : ℕ) (x : T) → slot xs i ≡ some x → vacant xs i ≡ 0
  unfolding slot
  vacant_taken [] i x h = refl
  vacant_taken (none ∷ xs) zero x h = cc
  vacant_taken (some y ∷ xs) zero x h = refl
  vacant_taken (none ∷ xs) (suc i) x h = vacant_taken xs i x h
  vacant_taken (some y ∷ xs) (suc i) x h = vacant_taken xs i x h

  pub vacant-set-some :
      (xs : List (Option T)) (i j : ℕ) (x : T)
      → vacant (set xs i (some x)) j ≡ ite (ℕ_discrete i j) 0 (vacant xs j)
  vacant-set-some [] i j x = ground arith
  vacant-set-some (none ∷ xs) zero zero x = ground arith
  vacant-set-some (none ∷ xs) zero (suc j) x = ground arith
  vacant-set-some (none ∷ xs) (suc i) zero x = ground arith
  vacant-set-some (none ∷ xs) (suc i) (suc j) x = ground (arith, vacant-set-some xs i j x)
  vacant-set-some (some y ∷ xs) zero zero x = ground arith
  vacant-set-some (some y ∷ xs) zero (suc j) x = ground arith
  vacant-set-some (some y ∷ xs) (suc i) zero x = ground arith
  vacant-set-some (some y ∷ xs) (suc i) (suc j) x = ground (arith, vacant-set-some xs i j x)

  pub vacant-set-none :
      (xs : List (Option T)) (i j : ℕ) (x : T)
      → slot xs i ≡ some x
      → vacant (set xs i none) j ≡ ite (ℕ_discrete i j) 1 (vacant xs j)
  unfolding slot
  vacant-set-none [] i j x h = ground arith
  vacant-set-none (none ∷ xs) zero j x h = ground arith
  vacant-set-none (none ∷ xs) (suc i) zero x h = ground arith
  vacant-set-none (none ∷ xs) (suc i) (suc j) x h = ground (arith, vacant-set-none xs i j x h)
  vacant-set-none (some y ∷ xs) zero zero x h = ground arith
  vacant-set-none (some y ∷ xs) zero (suc j) x h = ground arith
  vacant-set-none (some y ∷ xs) (suc i) zero x h = ground arith
  vacant-set-none (some y ∷ xs) (suc i) (suc j) x h = ground (arith, vacant-set-none xs i j x h)

  pub vacant-append :
      (xs : List (Option T)) (j : ℕ) (x : T) → vacant (xs ++ some x ∷ []) j ≡ vacant xs j
  vacant-append [] zero x = refl
  vacant-append [] (suc j) x = refl
  vacant-append (none ∷ xs) zero x = refl
  vacant-append (some y ∷ xs) zero x = refl
  vacant-append (none ∷ xs) (suc j) x = vacant-append xs j x
  vacant-append (some y ∷ xs) (suc j) x = vacant-append xs j x

  pub occupied-set-some :
      (xs : List (Option T)) (i : ℕ) (x : T)
      → vacant xs i ≢ 0
      → occupied (set xs i (some x)) ≡ occupied xs + 1
  occupied-set-some [] i x h = absurd (h refl)
  occupied-set-some (none ∷ xs) zero x h = omega arith
  occupied-set-some (some y ∷ xs) zero x h = absurd (h refl)
  occupied-set-some (none ∷ xs) (suc i) x h = occupied-set-some xs i x h
  occupied-set-some (some y ∷ xs) (suc i) x h = omega (arith, occupied-set-some xs i x h)

  pub occupied-set-none :
      (xs : List (Option T)) (i : ℕ) (x : T)
      → slot xs i ≡ some x
      → occupied (set xs i none) + 1 ≡ occupied xs
  unfolding slot
  occupied-set-none [] i x h = cc
  occupied-set-none (none ∷ xs) zero x h = cc
  occupied-set-none (some y ∷ xs) zero x h = omega arith
  occupied-set-none (none ∷ xs) (suc i) x h = occupied-set-none xs i x h
  occupied-set-none (some y ∷ xs) (suc i) x h = omega (arith, occupied-set-none xs i x h)

  pub occupied-append :
      (xs : List (Option T)) (x : T) → occupied (xs ++ some x ∷ []) ≡ occupied xs + 1
  occupied-append [] x = omega arith
  occupied-append (none ∷ xs) x = occupied-append xs x
  occupied-append (some y ∷ xs) x = omega (arith, occupied-append xs x)

  pub slot-set :
      (xs : List (Option T)) (i j : ℕ) (v : Option T)
      → i < length xs
      → slot (set xs i v) j ≡ ite (ℕ_discrete i j) v (slot xs j)
  unfolding slot
  slot-set [] i j v h = absurd (omega arith)
  slot-set (x ∷ xs) zero zero v h = ground arith
  slot-set (x ∷ xs) zero (suc j) v h = ground arith
  slot-set (x ∷ xs) (suc i) zero v h = ground arith
  slot-set (x ∷ xs) (suc i) (suc j) v h = ground (arith, slot-set xs i j v)

  pub slot-append :
      (xs : List (Option T)) (j : ℕ) (x : T)
      → slot (xs ++ some x ∷ []) j ≡ ite (ℕ_discrete (length xs) j) (some x) (slot xs j)
  unfolding slot
  slot-append [] zero x = ground arith
  slot-append [] (suc j) x = ground arith
  slot-append (y ∷ xs) zero x = ground arith
  slot-append (y ∷ xs) (suc j) x = ground (arith, slot-append xs j x)

  pub slot-lt : (xs : List (Option T)) (i : ℕ) (x : T) → slot xs i ≡ some x → i < length xs
  unfolding slot
  slot-lt [] i x h = cc
  slot-lt (y ∷ xs) zero x h = omega arith
  slot-lt (y ∷ xs) (suc i) x h = omega (arith, slot-lt xs i x h)

  pub slot-length : (xs : List (Option T)) → slot xs (length xs) ≡ none
  unfolding slot
  slot-length [] = refl
  slot-length (x ∷ xs) = slot-length xs
