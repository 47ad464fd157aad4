-- ===== src/Common/MeanList.antt =====
-- backend/common/src/mean_list.rs: a list of at most 20 means, each over a growing number of values.
-- A float is its bit pattern; the arithmetic of floats is a parameter.
pub mod Bounds
mod Examples
use substrate_telemetry.Prelude.{
  ℕ, zero, suc, ◌+◌, ◌*◌, ◌%◌, Bool, true, false, ◌&&◌, List, [], ◌∷◌, ◌++◌, ltb, leb, ◌==◌,
  if◌then◌else◌, length, set, get_elem?, expect, take, replicate, Run, ok, panic, ◌>>=◌,
}

-- The operations of a floating-point type that the program uses.
pub record Float : Type 0 where
  pub zero : ℕ
  pub plus : ℕ → ℕ → ℕ
  pub divided : ℕ → ℕ → ℕ
  pub from_u8 : ℕ → ℕ
  pub from_u64 : ℕ → ℕ

pub record MeanList : Type 0 where
  pub period_sum : ℕ
  pub period_count : ℕ
  pub mean_index : ℕ
  pub means : List ℕ
  pub ticks_per_mean : ℕ

-- The number of values of a `u8`.
abbrev pub u8_mod : ℕ
u8_mod = 256

-- `means.rotate_left(1)`
pub rotate_left : List ℕ → List ℕ
rotate_left [] = []
rotate_left (x ∷ xs) = xs ++ x ∷ []

module _ (float : Float) where
  pub default : MeanList
  default = record {
    period_sum = float.zero;
    period_count = 0;
    mean_index = 0;
    means = replicate 20 float.zero;
    ticks_per_mean = 1;
  }

  pub slice : MeanList → Run (List ℕ)
  slice m = if leb m.mean_index (length m.means) then ok (take m.mean_index m.means) else panic

  -- `self.means[i]`
  pub read_mean : List ℕ → ℕ → Run ℕ
  read_mean means i = expect (get_elem? means i)

  -- `self.means[i] = mean`
  pub write_mean : List ℕ → ℕ → ℕ → Run (List ℕ)
  write_mean means i mean = if ltb i (length means) then ok (set means i mean) else panic

  -- One turn of the loop of `squash_means`.
  pub squash_mean : ℕ → List ℕ → Run (List ℕ)
  unfolding read_mean write_mean
  squash_mean i means = do
    low ← read_mean means (i * 2)
    high ← read_mean means (i * 2 + 1)
    write_mean means i (float.divided (float.plus low high) (float.from_u8 2))

  -- The loop, for `rounds` more values of `i`.
  pub squash_from : ℕ → ℕ → List ℕ → Run (List ℕ)
  unfolding squash_mean
  squash_from zero i means = ok means
  squash_from (suc rounds) i means = do
    means' ← squash_mean i means
    squash_from rounds (i + 1) means'

  pub squash_means : MeanList → Run MeanList
  unfolding squash_from
  squash_means m = do
    means ← squash_from 10 0 m.means
    ok (record m { ticks_per_mean = m.ticks_per_mean * 2 % u8_mod; mean_index = 10; means = means })

  pub push_mean : MeanList → Run MeanList
  unfolding rotate_left write_mean
  push_mean m =
      let mean = float.divided m.period_sum (float.from_u8 m.period_count) in
      let done = record m { period_sum = float.zero; period_count = 0 } in
      if m.mean_index == 20 && m.ticks_per_mean == 32
      then (do means ← write_mean (rotate_left m.means) 19 mean; ok (record done { means = means }))
      else (do
        means ← write_mean m.means m.mean_index mean
        ok (record done { means = means; mean_index = (m.mean_index + 1) % u8_mod }))

  -- `push`, once there is room for the mean.
  pub push_value : MeanList → ℕ → Run (MeanList × Bool)
  unfolding push_mean
  push_value m val =
      let m' = record m {
        period_sum = float.plus m.period_sum val;
        period_count = (m.period_count + 1) % u8_mod;
      } in
      if m'.period_count == m'.ticks_per_mean
      then (do m'' ← push_mean m'; ok (m'', true))
      else ok (m', false)

  pub push : MeanList → ℕ → Run (MeanList × Bool)
  unfolding squash_means
  push m val = do
    m' ← if m.mean_index == 20 && ltb m.ticks_per_mean 32 then squash_means m else ok m
    push_value m' val
