-- ===== src/Core/Counter.antt =====
-- backend/telemetry_core/src/state/counter.rs: how often each key occurs. Counts stay below 2^64:
-- each stands for a node that is held in memory.
pub mod Tally
pub mod Ranked
mod Examples
use substrate_telemetry.Prelude.{
  ℕ, ◌+◌, Bool, false, ◌||◌, Option, none, some, List, [], ◌∷◌, map, Key, text_key, bucket_key,
  bool_key, nat_key, ltb, ◌==◌, if◌then◌else◌, take, drop, sum, Run, ok, panic, ◌>>=◌, sub64,
}
use substrate_telemetry.Prelude.HashMap
use substrate_telemetry.Prelude.HashMap.{HashMap}

pub record Counter (K : Type 0) : Type 0 where
  pub table : HashMap K ℕ
  pub empty : ℕ

pub data CounterValue : Type 0 where
  increment decrement : CounterValue

-- `feed_message.rs`
pub record Ranking (K : Type 0) : Type 0 where
  pub list : List (K × ℕ)
  pub other : ℕ
  pub unknown : ℕ

-- `CounterValue` applied to a number.
abbrev pub step : CounterValue → ℕ → ℕ
step increment n = n + 1
step decrement n = sub64 n 1

module _ {K : Type 0} where
  pub default : Counter K
  default = record { table = []; empty = 0 }

module _ {K : Type 0} ⦃key : Key K⦄ where
  -- `modify` for a key that has an entry, or none.
  modify_entry : K → CounterValue → HashMap K ℕ → Option ℕ → Run (HashMap K ℕ)
  modify_entry k increment m (some n) = ok (HashMap.insert k (n + 1) m)
  modify_entry k decrement m (some n) =
      let n' = sub64 n 1 in if n' == 0 then ok (HashMap.remove k m) else ok (HashMap.insert k n' m)
  modify_entry k increment m none = ok (HashMap.insert k 1 m)
  modify_entry k decrement m none = panic

  pub modify : Option K → CounterValue → Counter K → Run (Counter K)
  unfolding modify_entry
  modify none op c = ok (record c { empty = step op c.empty })
  modify (some k) op c = do
    table ← modify_entry k op c.table (HashMap.get k c.table)
    ok (record c { table = table })

-- `sort_unstable_by_key`, as an insertion sort by a test for what comes first.
module _ {A : Type 0} (before : A → A → Bool) where
  pub insert_sorted : A → List A → List A
  insert_sorted a [] = a ∷ []
  insert_sorted a (b ∷ xs) = if before b a then b ∷ insert_sorted a xs else a ∷ b ∷ xs

  pub sort : List A → List A
  unfolding insert_sorted
  sort [] = []
  sort (a ∷ xs) = insert_sorted a (sort xs)

abbrev pub counts : {K : Type 0} → List (K × ℕ) → List ℕ
counts = map (λ e. e.1)

module _ {K : Type 0} where
  -- By `!count`: the higher count first.
  abbrev pub more_frequent : K × ℕ → K × ℕ → Bool
  more_frequent a b = ltb b.1 a.1

  pub generate_ranking_top : Counter K → ℕ → Ranking K
  unfolding sort
  generate_ranking_top c max_count =
      let all = sort more_frequent c.table in
      record {
        list = take max_count all;
        other = sum (counts (drop max_count all));
        unknown = c.empty;
      }

  -- By the key, and `!count` where keys are equal; `less` is the strict order of the keys.
  abbrev pub in_order : (K → K → Bool) → K × ℕ → K × ℕ → Bool
  in_order less a b = less a.0 b.0 || (if less b.0 a.0 then false else ltb b.1 a.1)

  pub generate_ranking_ordered : (K → K → Bool) → Counter K → Ranking K
  unfolding sort
  generate_ranking_ordered less c = record {
    list = sort (in_order less) c.table;
    other = 0;
    unknown = c.empty;
  }
