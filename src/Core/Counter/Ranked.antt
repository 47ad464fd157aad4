-- ===== src/Core/Counter/Ranked.antt =====
-- The rankings that a `Counter` generates.
use substrate_telemetry.Prelude.{
  ℕ, zero, suc, ◌≤◌, ◌≡◌, refl, ap, inl, inr, Bool, List, [], ◌∷◌, ◌++◌, text_key, bucket_key,
  bool_key, nat_key, arith, Bool-cases, length, take, drop, All, sum,
}
use mathlib.Core.List.Perm
use mathlib.Core.List.{Perm}
use substrate_telemetry.Core.Counter.{
  Counter, insert_sorted, sort, counts, more_frequent, in_order, generate_ranking_top,
  generate_ranking_ordered,
}

module _ {A : Type 0} (before : A → A → Bool) where
  insert_sorted-perm : (a : A) (xs : List A) → Perm (insert_sorted before a xs) (a ∷ xs)
  unfolding insert_sorted
  insert_sorted-perm a [] = Perm.refl (a ∷ [])
  insert_sorted-perm a (b ∷ xs) = elim (Bool-cases (before b a)) [
    | inl e ↦ rw e (Perm.trans (Perm.cons b (insert_sorted-perm a xs)) (Perm.swap a b xs))
    | inr e ↦ rw e (Perm.refl (a ∷ b ∷ xs))
  ]

  sort-perm : (xs : List A) → Perm (sort before xs) xs
  unfolding sort
  sort-perm [] = Perm.refl []
  sort-perm (a ∷ xs) =
      Perm.trans (insert_sorted-perm a (sort before xs)) (Perm.cons a (sort-perm xs))

take-append-drop : {A : Type 0} (n : ℕ) (xs : List A) → take n xs ++ drop n xs ≡ xs
take-append-drop zero xs = refl
take-append-drop (suc n) [] = refl
take-append-drop (suc n) (x ∷ xs) = ap (◌∷◌ x) (take-append-drop n xs)

length-take-le : {A : Type 0} (n : ℕ) (xs : List A) → length (take n xs) ≤ n
length-take-le zero xs = omega arith
length-take-le (suc n) [] = omega arith
length-take-le (suc n) (x ∷ xs) = omega (arith, length-take-le n xs)

module _ {K : Type 0} where
  -- No later entry has a higher count.
  abbrev IsDescending : List (K × ℕ) → Type 0
  IsDescending [] = Unit
  IsDescending (e ∷ xs) = All (λ f. f.1 ≤ e.1) xs × IsDescending xs

  All-le_trans :
      (m n : ℕ) (xs : List (K × ℕ)) → m ≤ n → All (λ f. f.1 ≤ m) xs → All (λ f. f.1 ≤ n) xs
  All-le_trans m n [] h a = tt
  All-le_trans m n (x ∷ xs) h a = (omega arith, All-le_trans m n xs h a.1)

  insert_sorted-le :
      (e : K × ℕ) (n : ℕ) (xs : List (K × ℕ))
      → e.1 ≤ n
      → All (λ f. f.1 ≤ n) xs
      → All (λ f. f.1 ≤ n) (insert_sorted more_frequent e xs)
  unfolding insert_sorted
  insert_sorted-le e n [] h a = (h, tt)
  insert_sorted-le e n (x ∷ xs) h a = ground (arith, insert_sorted-le e n xs h a.1)

  insert_sorted-IsDescending :
      (e : K × ℕ) (xs : List (K × ℕ))
      → IsDescending xs
      → IsDescending (insert_sorted more_frequent e xs)
  unfolding insert_sorted
  insert_sorted-IsDescending e [] d = (tt, tt)
  insert_sorted-IsDescending e (x ∷ xs) d = ground (
    arith,
    insert_sorted-IsDescending e xs d.1,
    insert_sorted-le e x.1 xs,
    All-le_trans x.1 e.1 xs,
  )

  sort-IsDescending : (xs : List (K × ℕ)) → IsDescending (sort more_frequent xs)
  unfolding sort
  sort-IsDescending [] = tt
  sort-IsDescending (e ∷ xs) = insert_sorted-IsDescending e _ (sort-IsDescending xs)

  All-drop : (P : K × ℕ → Type 0) (n : ℕ) (xs : List (K × ℕ)) → All P xs → All P (drop n xs)
  All-drop P zero xs a = a
  All-drop P (suc n) [] a = tt
  All-drop P (suc n) (x ∷ xs) a = All-drop P n xs a.1

  take-above-drop :
      (n : ℕ) (xs : List (K × ℕ))
      → IsDescending xs
      → All (λ e. All (λ f. f.1 ≤ e.1) (drop n xs)) (take n xs)
  take-above-drop zero xs d = tt
  take-above-drop (suc n) [] d = tt
  take-above-drop (suc n) (x ∷ xs) d = (All-drop _ n xs d.0, take-above-drop n xs d.1)

  -- The top ranking splits the table: it lists at most `max_count` entries, sums up the counts of
  -- the rest, and no entry of the rest has a higher count than a listed one.
  pub generate_ranking_top-split :
      (c : Counter K) (max_count : ℕ)
      → let r = generate_ranking_top c max_count in
        (rest : List (K × ℕ)) × Perm (r.list ++ rest) c.table
        × (r.other ≡ sum (counts rest))
        × All (λ e. All (λ f. f.1 ≤ e.1) rest) r.list
        × (length r.list ≤ max_count)
        × (r.unknown ≡ c.empty)
  unfolding generate_ranking_top
  generate_ranking_top-split c max_count =
      let all = sort more_frequent c.table in
      (
        drop max_count all,
        rw (take-append-drop max_count all) (sort-perm more_frequent c.table),
        refl,
        take-above-drop max_count all (sort-IsDescending c.table),
        length-take-le max_count all,
        refl,
      )

  -- The ordered ranking lists every entry of the table.
  pub generate_ranking_ordered-perm :
      (less : K → K → Bool) (c : Counter K) → Perm (generate_ranking_ordered less c).list c.table
  unfolding generate_ranking_ordered
  generate_ranking_ordered-perm less c = sort-perm (in_order less) c.table
