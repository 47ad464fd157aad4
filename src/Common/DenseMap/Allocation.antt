-- ===== src/Common/DenseMap/Allocation.antt =====
-- What the operations of a `DenseMap` promise: fresh Ids, no panic, and an exact length.
use substrate_telemetry.Prelude.{
  ℕ, suc, ◌+◌, ◌<◌, ◌≡◌, refl, sym, ap, ◌∙◌, ite, none, some, List, [], ◌∷◌, ◌++◌, Split, ok,
  length, length-append, length-set, set, count, sub64_small, arith, ℕ_discrete,
}
use substrate_telemetry.Common.DenseMap.{
  add, DenseMap, new, reuse, extend, add_with, get, remove, len, next_id,
}
use substrate_telemetry.Common.DenseMap.Contents.{
  contents, contents-set-some, contents-set-none, contents-append,
}
use substrate_telemetry.Common.DenseMap.Slots.{
  vacant, occupied, IsValid, vacant-lt, vacant-slot, vacant-le-one, vacant_taken, vacant-set-some,
  vacant-set-none, vacant-append, occupied-set-some, occupied-set-none, occupied-append, slot-set,
  slot-append, slot-lt, slot-length,
}

module _ {ℓ} {T : Type ℓ} where
  pub new-IsValid : IsValid (new {T = T})
  unfolding new
  new-IsValid = record { slots = λ i. refl; sized = refl }

  -- What `add_with` returns: the map with one more item, under an Id that was not in use.
  pub record Added (m : DenseMap T) (f : ℕ → T) (r : DenseMap T × ℕ) : Type ℓ where
    pub id : r.1 ≡ next_id m
    pub fresh : get m r.1 ≡ none
    pub reads : (j : ℕ) → get r.0 j ≡ ite (ℕ_discrete r.1 j) (some (f r.1)) (get m j)
    pub items : Split (f r.1) (contents r.0.items) (contents m.items)
    pub count : len r.0 ≡ len m + 1
    pub valid : IsValid r.0

  -- The length is the number of items, and its subtraction does not wrap.
  pub len-occupied : (m : DenseMap T) → IsValid m → len m ≡ occupied m.items
  unfolding len
  len-occupied m v = omega (arith, sub64_small (length m.items) (length m.retired), v.sized)

  -- The slot of a retired Id is empty.
  retired-vacant :
      (m : DenseMap T) (id : ℕ) (rest : List ℕ)
      → m.retired ≡ id ∷ rest
      → IsValid m
      → vacant m.items id ≡ suc (count id rest)
  retired-vacant m id rest e v = ground (arith, v.slots id)

  reuse-Added :
      (m : DenseMap T) (f : ℕ → T) (id : ℕ) (rest : List ℕ)
      → m.retired ≡ id ∷ rest
      → IsValid m
      → Added m f (record { retired = rest; items = set m.items id (some (f id)) }, id)
  unfolding next_id get
  reuse-Added m f id rest e v =
      let full = retired-vacant m id rest e v in
      let once = vacant-le-one m.items id in
      let more = occupied-set-some m.items id (f id) (omega (arith, full)) in
      let m' : DenseMap T = record { retired = rest; items = set m.items id (some (f id)) } in
      let valid : IsValid m' = record {
        slots = λ j. ground (arith, v.slots j, full, once, vacant-set-some m.items id j (f id));
        sized = omega (arith, v.sized, more, length-set m.items id (some (f id)), ap length e);
      } in
      record {
        id = ground arith;
        fresh = vacant-slot m.items id (omega (arith, full));
        reads =
            λ j. slot-set m.items id j (some (f id)) (vacant-lt m.items id (omega (arith, full)));
        items = contents-set-some m.items id (f id) (omega (arith, full));
        count = omega (arith, len-occupied m v, len-occupied m' valid, more);
        valid = valid;
      }

  extend-Added : (m : DenseMap T) (f : ℕ → T) → m.retired ≡ [] → IsValid m → Added m f (extend m f)
  unfolding extend next_id get
  extend-Added m f e v =
      let x = f (length m.items) in
      let more = occupied-append m.items x in
      let m' : DenseMap T = record m { items = m.items ++ some x ∷ [] } in
      let valid : IsValid m' = record {
        slots = λ j. v.slots j ∙ sym (vacant-append m.items j x);
        sized = omega (arith, v.sized, more, length-append m.items (some x ∷ []));
      } in
      record {
        id = ground arith;
        fresh = slot-length m.items;
        reads = λ j. slot-append m.items j x;
        items = contents-append m.items x;
        count = omega (arith, len-occupied m v, len-occupied m' valid, more);
        valid = valid;
      }

  reuse-ok :
      (m : DenseMap T) (f : ℕ → T) (id : ℕ) (rest : List ℕ)
      → id < length m.items
      → reuse m f id rest ≡ ok (record { retired = rest; items = set m.items id (some (f id)) }, id)
  unfolding reuse
  reuse-ok m f id rest h = ground arith

  add_with_cases :
      (m : DenseMap T) (f : ℕ → T) (free : List ℕ)
      → m.retired ≡ free
      → IsValid m
      → (r : DenseMap T × ℕ) × (add_with m f ≡ ok r) × Added m f r
  unfolding add_with extend
  add_with_cases m f [] e v = (extend m f, ground arith, extend-Added m f e v)
  add_with_cases m f (id ∷ rest) e v =
      let inside = vacant-lt m.items id (omega (arith, retired-vacant m id rest e v)) in
      (
        (record { retired = rest; items = set m.items id (some (f id)) }, id),
        rw (e, add_with) (reuse-ok m f id rest inside),
        reuse-Added m f id rest e v,
      )

  -- On a valid map `add_with` does not panic. The Id is the one that `next_id` foretells, it was not
  -- in use, the item is read under it, all else is read as before, and the length grows by one.
  pub add_with-Added :
      (m : DenseMap T) (f : ℕ → T)
      → IsValid m
      → (r : DenseMap T × ℕ) × (add_with m f ≡ ok r) × Added m f r
  add_with-Added m f v = add_with_cases m f m.retired refl v

  pub add-Added :
      (m : DenseMap T) (item : T)
      → IsValid m
      → (r : DenseMap T × ℕ) × (add m item ≡ ok r) × Added m (λ _. item) r
  unfolding add
  add-Added m item v = add_with-Added m (λ _. item) v

  -- What `remove` returns for an Id that is in use: the item, and the map without it.
  pub record Removed (m : DenseMap T) (id : ℕ) (x : T) (m' : DenseMap T) : Type ℓ where
    pub reads : (j : ℕ) → get m' j ≡ ite (ℕ_discrete id j) none (get m j)
    pub items : Split x (contents m.items) (contents m'.items)
    pub count : len m' + 1 ≡ len m
    pub next : next_id m' ≡ id
    pub valid : IsValid m'

  -- Removing an Id that is in use hands back its item, frees the Id for the next item, keeps every
  -- other item, and shortens the map by one.
  pub remove-Removed :
      (m : DenseMap T) (id : ℕ) (x : T)
      → IsValid m
      → get m id ≡ some x
      → ((remove m id).1 ≡ some x) × Removed m id x (remove m id).0
  unfolding remove get next_id
  remove-Removed m id x v e =
      let less = occupied-set-none m.items id x e in
      let m' : DenseMap T = record { retired = id ∷ m.retired; items = set m.items id none } in
      let valid : IsValid m' = record {
        slots = λ j.
            ground
              (arith, v.slots j, vacant-set-none m.items id j x e, vacant_taken m.items id x e);
        sized = omega (arith, v.sized, less, length-set m.items id none);
      } in
      let removed : Removed m id x m' = record {
        reads = λ j. slot-set m.items id j none (slot-lt m.items id x e);
        items = contents-set-none m.items id x e;
        count = omega (arith, len-occupied m v, len-occupied m' valid, less);
        next = refl;
        valid = valid;
      } in
      rw (e, remove) (refl, removed)

  -- Removing an Id that is not in use, for instance one removed before, changes nothing.
  pub remove_absent : (m : DenseMap T) (id : ℕ) → get m id ≡ none → remove m id ≡ (m, none)
  unfolding remove
  remove_absent m id e = rw (e, remove)
