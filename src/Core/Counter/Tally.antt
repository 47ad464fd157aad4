-- ===== src/Core/Counter/Tally.antt =====
-- A `Counter` counts a list of optional keys: what `modify` does to the counts, and that it does not
-- panic.
use substrate_telemetry.Prelude.{
  ℕ, zero, suc, ◌+◌, ◌<◌, ◌≡◌, refl, ◌∙◌, ◌≢◌, ite, if_pos, Option, none, some, List, [], ◌∷◌, Key,
  text_key, bucket_key, bool_key, nat_key, arith, suc-==-zero, Split, here, there, Returns,
  Run-cases, Returns-mono, sub64, sub64_small,
}
use substrate_telemetry.Prelude.HashMap
use substrate_telemetry.Prelude.HashMap.{
  HashMap, or_zero, IsMap, get-insert, get-remove, insert-IsMap, remove-IsMap,
}
use substrate_telemetry.Core.Counter.{
  Counter, CounterValue, increment, decrement, default, modify_entry, modify,
}

sub64-one : (n : ℕ) → sub64 (suc n) 1 ≡ n
sub64-one n = sub64_small (suc n) 1 (omega arith) ∙ omega arith

module _ {K : Type 0} ⦃key : Key K⦄ where
  -- The count of a key, or of its absence.
  pub tally : Counter K → Option K → ℕ
  tally c none = c.empty
  tally c (some k) = or_zero (HashMap.get k c.table)

  -- 1 if the two optional keys are the same.
  abbrev pub same : Option K → Option K → ℕ
  same none none = 1
  same (some j) (some k) = ite (key.dec j k) 1 0
  same none (some k) = 0
  same (some j) none = 0

  -- How often a key, or no key, stands in a list of optional keys.
  abbrev pub occurrences : Option K → List (Option K) → ℕ
  occurrences k [] = 0
  occurrences k (j ∷ js) = same j k + occurrences k js

  -- No key is stored twice, and none is stored with a count of zero.
  pub record IsValid (c : Counter K) : Type 0 where
    pub unique : IsMap c.table
    pub hits : (k : K) → HashMap.get k c.table ≢ some 0

  pub default-IsValid : IsValid (default {K = K})
  unfolding default HashMap.get
  default-IsValid = record { unique = tt; hits = λ k. ground arith }

  pub tally-default : (k : Option K) → tally default k ≡ 0
  unfolding tally default HashMap.get
  tally-default none = refl
  tally-default (some k) = refl

  -- The table after `modify` on a key: its count is the new one, and the others are as they were.
  record Changed (k : K) (n : ℕ) (m m' : HashMap K ℕ) : Type 0 where
    unique : IsMap m'
    hits : (j : K) → HashMap.get j m' ≢ some 0
    reads : (j : K) → or_zero (HashMap.get j m') ≡ ite (key.dec k j) n (or_zero (HashMap.get j m))

  module _ (k : K) (m : HashMap K ℕ) (u : IsMap m) (hits : (j : K) → HashMap.get j m ≢ some 0) where
    insert-Changed : (n : ℕ) → n ≢ 0 → Changed k n m (HashMap.insert k n m)
    insert-Changed n positive = record {
      unique = insert-IsMap k n m u;
      hits = λ j. ground (arith, hits j, get-insert k j n m);
      reads = λ j. ground (arith, get-insert k j n m);
    }

    remove-Changed : Changed k 0 m (HashMap.remove k m)
    remove-Changed = record {
      unique = remove-IsMap k m u;
      hits = λ j. ground (arith, hits j, get-remove k j m);
      reads = λ j. ground (arith, get-remove k j m);
    }

    modify_entry-increment :
        (o : Option ℕ)
        → HashMap.get k m ≡ o
        → Returns (modify_entry k increment m o) (Changed k (or_zero o + 1) m)
    unfolding modify_entry
    modify_entry-increment none e = insert-Changed 1 (omega arith)
    modify_entry-increment (some n) e = insert-Changed (n + 1) (omega arith)

    modify_entry-decrement :
        (n : ℕ)
        → HashMap.get k m ≡ some (suc n)
        → Returns (modify_entry k decrement m (some (suc n))) (Changed k n m)
    unfolding modify_entry
    modify_entry-decrement zero e = rw (sub64-one 0) remove-Changed
    modify_entry-decrement (suc n) e =
        rw (sub64-one (suc n), suc-==-zero n) (insert-Changed (suc n) (omega arith))

  module _ (k : K) (m : HashMap K ℕ) (u : IsMap m) (hits : (j : K) → HashMap.get j m ≢ some 0) where
    -- A table whose count of `k` is changed by `n` up or down.
    abbrev Counts : (ℕ → ℕ → Type 0) → HashMap K ℕ → Type 0
    Counts change m' =
        IsMap m'
        × ((j : K) → HashMap.get j m' ≢ some 0)
        × ((j : K)
            → ite (key.dec k j) (change (or_zero (HashMap.get k m)) (or_zero (HashMap.get k m')))
                (HashMap.get j m' ≡ HashMap.get j m))

  -- The count of every key moves by one for the key of the call, and not at all for another.
  raised :
      (k : Option K) (c c' : Counter K)
      → ((j : K) → tally c' (some j) ≡ tally c (some j) + same k (some j))
      → c'.empty ≡ c.empty + same k none
      → (j : Option K) → tally c' j ≡ tally c j + same k j
  unfolding tally
  raised k c c' h e none = e
  raised k c c' h e (some j) = h j

  lowered :
      (k : Option K) (c c' : Counter K)
      → ((j : K) → tally c' (some j) + same k (some j) ≡ tally c (some j))
      → c'.empty + same k none ≡ c.empty
      → (j : Option K) → tally c' j + same k j ≡ tally c j
  unfolding tally
  lowered k c c' h e none = e
  lowered k c c' h e (some j) = h j

  -- Counting a key in does not panic, and adds one to its count alone.
  pub modify_increment :
      (k : Option K) (c : Counter K)
      → IsValid c
      → Returns
          (modify k increment c)
          (λ c'. IsValid c' × ((j : Option K) → tally c' j ≡ tally c j + same k j))
  unfolding modify tally
  modify_increment none c v = (
    record { unique = v.unique; hits = v.hits },
    raised none c (record c { empty = c.empty + 1 }) (λ j. omega arith) (omega arith),
  )
  modify_increment (some k) c v =
      let (m', e, h) =
        Run-cases (Changed k (or_zero (HashMap.get k c.table) + 1) c.table) _
          (modify_entry-increment k c.table v.unique v.hits (HashMap.get k c.table) refl) in
      rw e (
        record { unique = h.unique; hits = h.hits },
        raised (some k) c (record c { table = m' }) (λ j. ground (arith, h.reads j)) (omega arith),
      )

  -- Counting a key out that was counted in does not panic, and takes one off its count alone.
  pub modify_decrement :
      (k : Option K) (c : Counter K)
      → IsValid c
      → 0 < tally c k
      → Returns
          (modify k decrement c)
          (λ c'. IsValid c' × ((j : Option K) → tally c' j + same k j ≡ tally c j))
  unfolding modify tally
  modify_decrement none c v h = (
    record { unique = v.unique; hits = v.hits },
    lowered none c (record c { empty = sub64 c.empty 1 }) (λ j. omega arith)
        (omega (arith, sub64_small c.empty 1)),
  )
  modify_decrement (some k) c v h = held (HashMap.get k c.table) refl
    where
      held :
          (o : Option ℕ)
          → HashMap.get k c.table ≡ o
          → Returns
              (modify (some k) decrement c)
              (λ c'. IsValid c' × ((j : Option K) → tally c' j + same (some k) j ≡ tally c j))
      held none e = absurd (ground (arith, h, e))
      held (some zero) e = absurd (v.hits k e)
      held (some (suc n)) e =
          let (m', e', h') =
            Run-cases (Changed k n c.table) _
              (modify_entry-decrement k c.table v.unique v.hits n e) in
          rw (e, e')
            (
              record { unique = h'.unique; hits = h'.hits },
              lowered (some k) c (record c { table = m' }) (λ j. ground (arith, h'.reads j, e))
                  (omega arith),
            )

  -- The counter holds exactly the optional keys of the list.
  pub record Holds (c : Counter K) (ks : List (Option K)) : Type 0 where
    pub valid : IsValid c
    pub exact : (k : Option K) → tally c k ≡ occurrences k ks

  pub default-Holds : Holds default []
  default-Holds = record { valid = default-IsValid; exact = tally-default }

  same_self : (k : Option K) → same k k ≡ 1
  same_self none = refl
  same_self (some k) = if_pos (key.dec k k) refl _ _

  occurrences-Split :
      (k j : Option K) {ks less : List (Option K)}
      → Split k ks less
      → occurrences j ks ≡ same k j + occurrences j less
  occurrences-Split k j here = refl
  occurrences-Split k j (there s) = omega (arith, occurrences-Split k j s)

  -- What counting a key in or out does to the list of keys.
  abbrev pub Moves : CounterValue → Option K → List (Option K) → List (Option K) → Type 0
  Moves increment k before after = Split k after before
  Moves decrement k before after = Split k before after

  -- If a counter holds a list, then `modify` does not panic and leaves the counter holding the list
  -- with the key put in, or with one that stands in it taken out.
  pub modify-Holds :
      (op : CounterValue) (k : Option K) (c : Counter K) (ks ks' : List (Option K))
      → Holds c ks
      → Moves op k ks ks'
      → Returns (modify k op c) (λ c'. Holds c' ks')
  modify-Holds increment k c ks ks' h s =
      Returns-mono (modify k increment c) _ _ (modify_increment k c h.valid) λ c' m. record {
        valid = m.0;
        exact = λ j. omega (arith, m.1 j, h.exact j, occurrences-Split k j s);
      }
  modify-Holds decrement k c ks ks' h s =
      Returns-mono (modify k decrement c) _ _
        (modify_decrement k c h.valid
          (omega (arith, h.exact k, occurrences-Split k k s, same_self k)))
        λ c' m. record {
          valid = m.0;
          exact = λ j. omega (arith, m.1 j, h.exact j, occurrences-Split k j s);
        }

  -- A counter does not see the order of a list, only what stands in it.
  pub Holds-Split :
      (k : Option K) (c : Counter K) {ks ks' less : List (Option K)}
      → Split k ks less
      → Split k ks' less
      → Holds c ks
      → Holds c ks'
  Holds-Split k c s s' h = record {
    valid = h.valid;
    exact = λ j. omega (arith, h.exact j, occurrences-Split k j s, occurrences-Split k j s');
  }
