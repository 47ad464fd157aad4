-- ===== src/Common/DenseMap/Contents.antt =====
-- The items of a `DenseMap` as a list, and what writing a slot does to it.
use substrate_telemetry.Prelude.{
  ℕ, zero, suc, ◌≡◌, refl, subst, sym, ap, ◌∙◌, ◌≢◌, ite, if_pos, Option, none, some, List, [], ◌∷◌,
  ◌++◌, map, arith, length, length-set, set-set, set, Split, here, there, ℕ_discrete,
}
use substrate_telemetry.Common.DenseMap.{DenseMap, new, slot, get, put, entries}
use substrate_telemetry.Common.DenseMap.Slots.{
  vacant, occupied, IsValid, vacant_taken, vacant-set-some, slot-set, slot-lt,
}

module _ {ℓ} {T : Type ℓ} where
  -- The items, in the order of their slots.
  abbrev pub contents : List (Option T) → List T
  contents [] = []
  contents (none ∷ xs) = contents xs
  contents (some x ∷ xs) = x ∷ contents xs

  pub contents-set-some :
      (xs : List (Option T)) (i : ℕ) (x : T)
      → vacant xs i ≢ 0
      → Split x (contents (set xs i (some x))) (contents xs)
  contents-set-some [] i x h = absurd (h refl)
  contents-set-some (none ∷ xs) zero x h = here
  contents-set-some (some y ∷ xs) zero x h = absurd (h refl)
  contents-set-some (none ∷ xs) (suc i) x h = contents-set-some xs i x h
  contents-set-some (some y ∷ xs) (suc i) x h = there (contents-set-some xs i x h)

  pub contents-set-none :
      (xs : List (Option T)) (i : ℕ) (x : T)
      → slot xs i ≡ some x
      → Split x (contents xs) (contents (set xs i none))
  unfolding slot
  contents-set-none [] i x h = absurd (cc)
  contents-set-none (none ∷ xs) zero x h = absurd (cc)
  contents-set-none (some y ∷ xs) zero x h =
      let e : y ≡ x = cc in subst (λ z. Split z (y ∷ contents xs) (contents xs)) e here
  contents-set-none (none ∷ xs) (suc i) x h = contents-set-none xs i x h
  contents-set-none (some y ∷ xs) (suc i) x h = there (contents-set-none xs i x h)

  pub contents-replace :
      (xs : List (Option T)) (i : ℕ) (x y : T)
      → slot xs i ≡ some x
      → Split y (contents (set xs i (some y))) (contents (set xs i none))
  unfolding slot
  contents-replace [] i x y h = absurd (cc)
  contents-replace (none ∷ xs) zero x y h = absurd (cc)
  contents-replace (some z ∷ xs) zero x y h = here
  contents-replace (none ∷ xs) (suc i) x y h = contents-replace xs i x y h
  contents-replace (some z ∷ xs) (suc i) x y h = there (contents-replace xs i x y h)

  pub contents-append :
      (xs : List (Option T)) (x : T) → Split x (contents (xs ++ some x ∷ [])) (contents xs)
  contents-append [] x = here
  contents-append (none ∷ xs) x = contents-append xs x
  contents-append (some y ∷ xs) x = there (contents-append xs x)

  pub length-contents : (xs : List (Option T)) → length (contents xs) ≡ occupied xs
  length-contents [] = refl
  length-contents (none ∷ xs) = length-contents xs
  length-contents (some x ∷ xs) = ap suc (length-contents xs)

  -- Iteration meets the items in the order of their slots.
  pub entries-contents :
      (i : ℕ) (xs : List (Option T)) → map (λ e. e.1) (entries i xs) ≡ contents xs
  unfolding entries
  entries-contents i [] = refl
  entries-contents i (none ∷ xs) = entries-contents (suc i) xs
  entries-contents i (some x ∷ xs) = ap (◌∷◌ x) (entries-contents (suc i) xs)

  -- What writing to an Id that is in use does: that item is another one, and nothing else changes.
  pub record Replaced (m : DenseMap T) (id : ℕ) (x y : T) (m' : DenseMap T) : Type ℓ where
    pub reads : (j : ℕ) → get m' j ≡ ite (ℕ_discrete id j) (some y) (get m j)
    pub less : List T
    pub before : Split x (contents m.items) less
    pub after : Split y (contents m'.items) less
    pub valid : IsValid m'

  map-contents-set :
      {B : Type 0} (f : T → B) (xs : List (Option T)) (i : ℕ) (x y : T)
      → slot xs i ≡ some x
      → f y ≡ f x
      → map f (contents (set xs i (some y))) ≡ map f (contents xs)
  unfolding slot
  map-contents-set f [] i x y h e = refl
  map-contents-set f (none ∷ xs) zero x y h e = absurd (cc)
  map-contents-set f (some z ∷ xs) zero x y h e =
      let alike : z ≡ x = cc in ap (λ b. b ∷ map f (contents xs)) (e ∙ ap f (sym alike))
  map-contents-set f (none ∷ xs) (suc i) x y h e = map-contents-set f xs i x y h e
  map-contents-set f (some z ∷ xs) (suc i) x y h e =
      ap (◌∷◌ (f z)) (map-contents-set f xs i x y h e)

  -- An item that is replaced by one that `f` sees alike.
  pub map-contents-put :
      {B : Type 0} (f : T → B) (m : DenseMap T) (id : ℕ) (x y : T)
      → get m id ≡ some x
      → f y ≡ f x
      → map f (contents (put m id y).items) ≡ map f (contents m.items)
  unfolding get put
  map-contents-put f m id x y h e = map-contents-set f m.items id x y h e

  occupied-replace :
      (xs : List (Option T)) (i : ℕ) (x y : T)
      → slot xs i ≡ some x
      → occupied (set xs i (some y)) ≡ occupied xs
  unfolding slot
  occupied-replace [] i x y h = refl
  occupied-replace (none ∷ xs) zero x y h = absurd (cc)
  occupied-replace (some z ∷ xs) zero x y h = refl
  occupied-replace (none ∷ xs) (suc i) x y h = occupied-replace xs i x y h
  occupied-replace (some z ∷ xs) (suc i) x y h = ap suc (occupied-replace xs i x y h)

  -- Writing to an Id that is in use reads as the new item there and as before elsewhere, puts the new
  -- item in the place of the old one, and keeps the map valid.
  pub put-Replaced :
      (m : DenseMap T) (id : ℕ) (x y : T)
      → IsValid m
      → get m id ≡ some x
      → Replaced m id x y (put m id y)
  unfolding put get
  put-Replaced m id x y v e = record {
    reads = λ j. slot-set m.items id j (some y) (slot-lt m.items id x e);
    less = contents (set m.items id none);
    before = contents-set-none m.items id x e;
    after = contents-replace m.items id x y e;
    valid = record {
      slots = λ j.
          ground (arith, v.slots j, vacant-set-some m.items id j y, vacant_taken m.items id x e);
      sized =
          omega (arith, v.sized, occupied-replace m.items id x y e, length-set m.items id (some y));
    };
  }

  -- A later write to the same Id counts.
  pub put-put : (m : DenseMap T) (id : ℕ) (x y : T) → put (put m id x) id y ≡ put m id y
  unfolding put
  put-put m id x y =
      ap (λ items. record { retired = m.retired; items = items })
        (set-set m.items id (some x) (some y))

  pub get-put :
      (m : DenseMap T) (id : ℕ) (x y : T) → get m id ≡ some x → get (put m id y) id ≡ some y
  unfolding put get
  get-put m id x y e =
      slot-set m.items id id (some y) (slot-lt m.items id x e)
      ∙ if_pos (ℕ_discrete id id) refl (some y) (slot m.items id)

  pub get-new : (id : ℕ) → get (new {T = T}) id ≡ none
  unfolding get slot new
  get-new id = refl
