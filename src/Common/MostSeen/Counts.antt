-- ===== src/Common/MostSeen/Counts.antt =====
-- The counts that a `MostSeen` keeps, and that its best item has the highest.
use substrate_telemetry.Prelude.{
  ℕ, ◌+◌, ◌-◌, ◌≤◌, ◌≡◌, refl, sym, ◌≢◌, ◌↔◌, inl, inr, ite, if_pos, if_neg, true, Option, none,
  some, [], ◌∷◌, Key, ltb, arith, Option-cases, Bool-cases,
}
use substrate_telemetry.Prelude.HashMap
use substrate_telemetry.Prelude.HashMap.{
  HashMap, or_zero, IsMap, get-insert, get-remove, insert-IsMap, remove-IsMap,
}
use substrate_telemetry.Common.MostSeen.{
  MostSeen, no_change, has_changed, default, max_entry, swap_best, insert_other, insert, demote,
  remove,
}

module _ {T : Type 0} ⦃key : Key T⦄ where
  -- How often the item counts as seen.
  pub count : MostSeen T → T → ℕ
  count m t = ite (key.dec m.current_best t) m.current_count (or_zero (HashMap.get t m.others))

  -- The best item stands apart from the others, and none of them has a higher count.
  pub record IsValid (m : MostSeen T) : Type 0 where
    pub unique : IsMap m.others
    pub apart : HashMap.get m.current_best m.others ≡ none
    pub best : (t : T) → or_zero (HashMap.get t m.others) ≤ m.current_count

  pub default-IsValid : (t : T) → IsValid (default t)
  unfolding default HashMap.get
  default-IsValid t = record { unique = tt; apart = refl; best = λ u. omega arith }

  pub count-le-best : (m : MostSeen T) (t : T) → IsValid m → count m t ≤ m.current_count
  unfolding count
  count-le-best m t v = ground (arith, v.best t)

  -- The largest entry is one of the map's, and no entry is larger.
  max_entry-none : (m : HashMap T ℕ) → max_entry m ≡ none → m ≡ []
  unfolding max_entry
  max_entry-none [] h = refl
  max_entry-none (e ∷ m) h = ground arith

  max_entry-le :
      (m : HashMap T ℕ) (e : T × ℕ) (t : T) → max_entry m ≡ some e → or_zero (HashMap.get t m) ≤ e.1
  unfolding max_entry HashMap.get
  max_entry-le [] e t h = cc
  max_entry-le (f ∷ m) e t h = elim (Option-cases (max_entry m)) [
    | inl last ↦ ground (arith, max_entry-none m last)
    | inr (b, rest) ↦ ground (arith, max_entry-le m b t rest)
  ]

  max_entry-get :
      (m : HashMap T ℕ) (e : T × ℕ) → IsMap m → max_entry m ≡ some e → HashMap.get e.0 m ≡ some e.1
  unfolding max_entry HashMap.get
  max_entry-get [] e u h = cc
  max_entry-get (f ∷ m) e u h = elim (Option-cases (max_entry m)) [
    | inl last ↦ ground arith
    | inr (b, rest) ↦ ground (arith, max_entry-get m b u.1 rest)
  ]

  swap_best-IsValid :
      (m : MostSeen T) (item : T) (c : ℕ) (others : HashMap T ℕ)
      → IsMap others
      → item ≢ m.current_best
      → HashMap.get m.current_best others ≡ none
      → m.current_count ≤ c
      → ((t : T) → or_zero (HashMap.get t others) ≤ c)
      → IsValid (swap_best m item c others)
  unfolding swap_best
  swap_best-IsValid m item c others u other apart more le = record {
    unique = insert-IsMap _ _ _ (remove-IsMap _ _ u);
    apart = ground (
      arith,
      get-insert m.current_best item m.current_count (HashMap.remove item others),
      get-remove item item others,
    );
    best = λ t. ground (
      arith,
      le t,
      get-insert m.current_best t m.current_count (HashMap.remove item others),
      get-remove item t others,
    );
  }

  module _ (item : T) (m : MostSeen T) (v : IsValid m) (other : m.current_best ≢ item) (c : ℕ) where
    insert_other-IsValid :
        c ≡ or_zero (HashMap.get item m.others) + 1 → IsValid (insert_other m item c).0
    unfolding insert_other
    insert_other-IsValid e = elim (Bool-cases (ltb m.current_count c)) [
      | inl more ↦ rw more (
          swap_best-IsValid m item c (HashMap.insert item c m.others) (insert-IsMap _ _ _ v.unique)
            (λ p. other (sym p))
            (ground (arith, get-insert item m.current_best c m.others, v.apart)) (ground arith)
            (λ t. ground (arith, get-insert item t c m.others, v.best t)))
      | inr less ↦ rw less (record {
        unique = insert-IsMap _ _ _ v.unique;
        apart = ground (arith, get-insert item m.current_best c m.others, v.apart);
        best = λ t. ground (arith, get-insert item t c m.others, v.best t);
      })
    ]

  insert_best :
      (item : T) (m : MostSeen T)
      → m.current_best ≡ item
      → insert item m ≡ (record m { current_count = m.current_count + 1 }, no_change)
  unfolding insert
  insert_best item m p = if_pos (key.dec m.current_best item) p _ _

  insert_new :
      (item : T) (m : MostSeen T)
      → m.current_best ≢ item
      → insert item m ≡ insert_other m item (or_zero (HashMap.get item m.others) + 1)
  unfolding insert
  insert_new item m p = if_neg (key.dec m.current_best item) p _ _

  -- Inserting an item keeps the best item the most seen one.
  pub insert-IsValid : (item : T) (m : MostSeen T) → IsValid m → IsValid (insert item m).0
  insert-IsValid item m v = elim (key.dec m.current_best item) [
    | yes p ↦
        rw (insert_best item m p)
          (record { unique = v.unique; apart = v.apart; best = λ t. omega (arith, v.best t) })
    | no p ↦ rw (insert_new item m p) (insert_other-IsValid item m v p _ refl)
  ]

  -- `insert` reports a new best item exactly when the best item is another one than before.
  pub insert-has_changed :
      (item : T) (m : MostSeen T)
      → (has_changed (insert item m).1 ≡ true) ↔ ((insert item m).0.current_best ≢ m.current_best)
  unfolding insert insert_other swap_best
  insert-has_changed item m = ground arith

  remove_best :
      (m : MostSeen T)
      → remove m.current_best m
        ≡ demote (record m { current_count = m.current_count - 1 }) (max_entry m.others)
  unfolding remove
  remove_best m = if_pos (key.dec m.current_best m.current_best) refl _ _

  module _ (m : MostSeen T) (v : IsValid m) where
    demote-IsValid :
        (o : Option (T × ℕ))
        → max_entry m.others ≡ o
        → IsValid (demote (record m { current_count = m.current_count - 1 }) o).0
    unfolding demote HashMap.get
    demote-IsValid none e = record {
      unique = v.unique;
      apart = v.apart;
      best = λ t. ground (arith, max_entry-none m.others e);
    }
    demote-IsValid (some (item, c)) e = elim (Bool-cases (ltb (m.current_count - 1) c)) [
      | inl more ↦ rw more (
          swap_best-IsValid (record m { current_count = m.current_count - 1 }) item c m.others
            v.unique (λ p. ground (arith, p, v.apart, max_entry-get m.others (item, c) v.unique e))
            v.apart (ground arith) (λ t. max_entry-le m.others (item, c) t e))
      | inr less ↦ rw less (record {
        unique = v.unique;
        apart = v.apart;
        best = λ t. ground (arith, max_entry-le m.others (item, c) t e);
      })
    ]

  -- Removing the best item keeps, or makes, the best item the most seen one.
  pub remove_best-IsValid : (m : MostSeen T) → IsValid m → IsValid (remove m.current_best m).0
  remove_best-IsValid m v = rw (remove_best m) (demote-IsValid m v (max_entry m.others) refl)
