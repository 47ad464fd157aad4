-- ===== src/Core/ChainStats/Buckets.antt =====
-- The ranges that scores and memory sizes are counted in.
use substrate_telemetry.Prelude.{
  ℕ, ◌+◌, ◌*◌, ◌/◌, ◌≤◌, ◌<◌, ◌≡◌, refl, subst, sym, ◌⊎◌, inl, inr, true, false, none, some, List,
  [], ◌∷◌, Bucket, ltb, arith, Bool-cases, drop, dec_lt,
}
use substrate_telemetry.Core.ChainStats.{
  buckets, score_bounds, memory_bounds, F64, relative_score, bucket_score, bucket_memory,
}

-- The value lies in the range: at or above its lower bound, and below its upper one.
abbrev pub InBucket : ℕ → Bucket → Type 0
InBucket value (lower, none) = lower ≤ value
InBucket value (lower, some upper) = (lower ≤ value) × (value < upper)

-- The ranges of a list of bounds.
abbrev pub ranges : ℕ → List ℕ → List Bucket
ranges lower [] = (lower, none) ∷ []
ranges lower (upper ∷ bounds) = (lower, some upper) ∷ ranges upper bounds

-- One of the entries of a list.
abbrev pub OneOf : Bucket → List Bucket → Type 0
OneOf b [] = ⊥
OneOf b (c ∷ cs) = (b ≡ c) ⊎ OneOf b cs

buckets-InBucket :
    (value lower : ℕ) (bounds : List ℕ)
    → lower ≤ value
    → InBucket value (buckets value lower bounds)
unfolding buckets
buckets-InBucket value lower [] h = h
buckets-InBucket value lower (upper ∷ bounds) h = elim (Bool-cases (ltb value upper)) [
  | inl e ↦ rw e (h, ground arith)
  | inr e ↦ rw e (buckets-InBucket value upper bounds (ground arith))
]

buckets_last : (value lower : ℕ) → buckets value lower [] ≡ (lower, none)
unfolding buckets
buckets_last value lower = refl

buckets_here :
    (value lower upper : ℕ) (bounds : List ℕ)
    → value < upper
    → buckets value lower (upper ∷ bounds) ≡ (lower, some upper)
unfolding buckets
buckets_here value lower upper bounds h =
    let below : ltb value upper ≡ true = ground arith in rw below

buckets_next :
    (value lower upper : ℕ) (bounds : List ℕ)
    → upper ≤ value
    → buckets value lower (upper ∷ bounds) ≡ buckets value upper bounds
unfolding buckets
buckets_next value lower upper bounds h =
    let above : ltb value upper ≡ false = ground arith in rw above

buckets-OneOf :
    (value lower : ℕ) (bounds : List ℕ) → OneOf (buckets value lower bounds) (ranges lower bounds)
buckets-OneOf value lower [] = inl (buckets_last value lower)
buckets-OneOf value lower (upper ∷ bounds) = elim (dec_lt value upper) [
  | yes h ↦ inl (buckets_here value lower upper bounds h)
  | no h ↦ inr (
      subst (λ b. OneOf b (ranges upper bounds))
        (sym (buckets_next value lower upper bounds (omega arith)))
        (buckets-OneOf value upper bounds))
]

-- What is relied on of floats: the conversions, and the product and the quotient by something
-- positive, respect the order `Le`; whole numbers that a float holds, up to 2 ^ 53, are held, divided
-- and multiplied exactly where the result is whole, and a `u32` is read back as it was.
pub record IsF64 (f64 : F64) (Le : ℕ → ℕ → Type 0) : Type 0 where
  pub from_u64_mono : (m n : ℕ) → m ≤ n → Le (f64.from_u64 m) (f64.from_u64 n)
  pub divided_mono :
      (a b n : ℕ)
      → 0 < n
      → Le a b
      → Le (f64.divided a (f64.from_u64 n)) (f64.divided b (f64.from_u64 n))
  pub times_mono : (a b : ℕ) → Le a b → Le (f64.times a f64.hundred) (f64.times b f64.hundred)
  pub as_u32_mono : (a b : ℕ) → Le a b → f64.as_u32 a ≤ f64.as_u32 b
  pub quotient :
      (k n : ℕ)
      → 0 < n
      → k * n ≤ 9007199254740992
      → f64.divided (f64.from_u64 (k * n)) (f64.from_u64 n) ≡ f64.from_u64 k
  pub product :
      (k : ℕ)
      → k * 100 ≤ 9007199254740992
      → f64.times (f64.from_u64 k) f64.hundred ≡ f64.from_u64 (k * 100)
  pub as_u32_exact : (n : ℕ) → n < 4294967296 → f64.as_u32 (f64.from_u64 n) ≡ n

module _ (f64 : F64) (Le : ℕ → ℕ → Type 0) (laws : IsF64 f64 Le) where
  -- A multiple of the reference score is so many hundreds of percent.
  relative_score-multiple :
      (k reference_score : ℕ)
      → 0 < reference_score
      → k * reference_score ≤ 9007199254740992
      → k * 100 < 4294967296
      → relative_score f64 (k * reference_score) reference_score ≡ k * 100
  unfolding relative_score
  relative_score-multiple k reference_score pos h small =
      rw (relative_score, laws.quotient k reference_score pos h, laws.product k (omega arith))
        (laws.as_u32_exact (k * 100) small)

  relative_score_mono :
      (score higher reference_score : ℕ)
      → 0 < reference_score
      → score ≤ higher
      → relative_score f64 score reference_score ≤ relative_score f64 higher reference_score
  unfolding relative_score
  relative_score_mono score higher reference_score pos h = laws.as_u32_mono _ _ (
      laws.times_mono _ _
        (laws.divided_mono _ _ reference_score pos (laws.from_u64_mono score higher h)))

  -- A score from `k` times the reference score to `k + 1` times, where these are at most 2 ^ 53 and
  -- make a percentage below 2 ^ 32, is counted in a range of the table that has a percentage from
  -- `k * 100` to `(k + 1) * 100` in it, the lower bound inclusive and the upper one exclusive.
  pub bucket_score-InBucket :
      (k score reference_score : ℕ)
      → 0 < reference_score
      → k * reference_score ≤ score
      → score ≤ (k + 1) * reference_score
      → (k + 1) * reference_score ≤ 9007199254740992
      → (k + 1) * 100 < 4294967296
      → (percentage : ℕ) × (k * 100 ≤ percentage)
        × (percentage ≤ (k + 1) * 100)
        × InBucket percentage (bucket_score f64 score reference_score)
        × OneOf (bucket_score f64 score reference_score) (ranges 0 score_bounds)
  unfolding bucket_score
  bucket_score-InBucket k score reference_score pos low high held small =
      let percentage = relative_score f64 score reference_score in
      let exact_low =
        relative_score-multiple k reference_score pos (omega (arith, low, high, held))
          (omega (arith, small)) in
      let exact_high = relative_score-multiple (k + 1) reference_score pos held small in
      let above = relative_score_mono (k * reference_score) score reference_score pos low in
      let below = relative_score_mono score ((k + 1) * reference_score) reference_score pos high in
      (
        percentage,
        omega (arith, exact_low, above),
        omega (arith, exact_high, below),
        buckets-InBucket percentage 0 score_bounds (omega arith),
        buckets-OneOf percentage 0 score_bounds,
      )

-- The range that a memory size is counted in is one of the table's; from one unit of 1000 MiB on the
-- size in such units lies in it, and a smaller size is counted in the first range, from 1 to 2.
pub bucket_memory-InBucket :
    (memory : ℕ)
    → OneOf (bucket_memory memory) (ranges 1 memory_bounds)
      × ((1048576000 ≤ memory → InBucket (memory / (1024 * 1024) / 1000) (bucket_memory memory))
          × (memory < 1048576000 → bucket_memory memory ≡ (1, some 2)))
unfolding bucket_memory
bucket_memory-InBucket memory = (
  buckets-OneOf (memory / (1024 * 1024) / 1000) 1 memory_bounds,
  (
    (λ h. buckets-InBucket (memory / (1024 * 1024) / 1000) 1 memory_bounds (omega arith)),
    λ h. buckets_here (memory / (1024 * 1024) / 1000) 1 2 (drop 1 memory_bounds) (omega arith),
  ),
)
