-- ===== src/Common/MeanList/Bounds.antt =====
-- How far the indices and counters of a `MeanList` go.
use substrate_telemetry.Prelude.{
  ℕ, zero, suc, ◌+◌, ◌*◌, ◌%◌, ◌≤◌, ◌<◌, ◌≡◌, refl, sym, ap, ◌∙◌, ◌⊎◌, ◌↔◌, inl, inr, true, false,
  ◌&&◌, List, [], ◌∷◌, ltb, leb, ◌==◌, if◌then◌else◌, arith, Bool-cases, length, length-append,
  length-set, length-replicate, set, take, ok, Returns, Returns-mono, Returns-bind,
}
use substrate_telemetry.Common.MeanList.{
  Float, MeanList, u8_mod, rotate_left, default, slice, read_mean, squash_mean, squash_from,
  squash_means, write_mean, push_mean, push_value, push,
}

-- The number of values that go into a mean.
abbrev pub IsTicks : ℕ → Type 0
IsTicks n = (n ≡ 1) ⊎ (n ≡ 2) ⊎ (n ≡ 4) ⊎ (n ≡ 8) ⊎ (n ≡ 16) ⊎ (n ≡ 32)

-- There are 20 slots and at most as many means, a mean is over 1, 2, 4, 8, 16 or 32 values, and the
-- period that is under way is not full.
pub record IsValid (m : MeanList) : Type 0 where
  pub slots : length m.means ≡ 20
  pub index : m.mean_index ≤ 20
  pub ticks : IsTicks m.ticks_per_mean
  pub period : m.period_count < m.ticks_per_mean

length-take : (n : ℕ) (xs : List ℕ) → n ≤ length xs → length (take n xs) ≡ n
length-take zero xs h = refl
length-take (suc n) [] h = absurd (omega arith)
length-take (suc n) (x ∷ xs) h = ap suc (length-take n xs (omega arith))

length-rotate_left : (xs : List ℕ) → length (rotate_left xs) ≡ length xs
unfolding rotate_left
length-rotate_left [] = refl
length-rotate_left (x ∷ xs) = omega (arith, length-append xs (x ∷ []))

module _ (float : Float) where
  pub default-IsValid : IsValid (default float)
  unfolding default
  default-IsValid = record {
    slots = length-replicate 20 float.zero;
    index = omega arith;
    ticks = inl refl;
    period = omega arith;
  }

  write_mean-ok :
      (means : List ℕ) (i mean : ℕ)
      → i < length means
      → write_mean float means i mean ≡ ok (set means i mean)
  unfolding write_mean
  write_mean-ok means i mean h = ground arith

  read_mean-ok :
      (means : List ℕ) (i : ℕ) → i < length means → (mean : ℕ) × (read_mean float means i ≡ ok mean)
  unfolding read_mean
  read_mean-ok [] i h = absurd (omega arith)
  read_mean-ok (x ∷ xs) zero h = (x, refl)
  read_mean-ok (x ∷ xs) (suc i) h = read_mean-ok xs i (omega arith)

  -- One turn reads and writes slots that there are.
  squash_mean-room :
      (i : ℕ) (means : List ℕ)
      → length means ≡ 20
      → i < 10
      → Returns (squash_mean float i means) (λ means'. length means' ≡ 20)
  unfolding squash_mean
  squash_mean-room i means w h =
      let (low, e1) = read_mean-ok means (i * 2) (omega arith) in
      let (high, e2) = read_mean-ok means (i * 2 + 1) (omega arith) in
      let mean = float.divided (float.plus low high) (float.from_u8 2) in
      let e3 = write_mean-ok means i mean (omega arith) in
      rw (e1, e2, e3) (length-set means i mean ∙ w)

  squash_from-room :
      (rounds i : ℕ) (means : List ℕ)
      → length means ≡ 20
      → i + rounds ≤ 10
      → Returns (squash_from float rounds i means) (λ means'. length means' ≡ 20)
  unfolding squash_from
  squash_from-room zero i means w h = w
  squash_from-room (suc rounds) i means w h =
      Returns-bind (squash_mean float i means) _ (λ means'. length means' ≡ 20) _
        (squash_mean-room i means w (omega arith))
        (λ means' w'. squash_from-room rounds (i + 1) means' w' (omega arith))

  -- A list that is squashed has room, and takes twice as many values for a mean.
  record Squashed (m m' : MeanList) : Type 0 where
    valid : IsValid m'
    room : m'.mean_index < 20
    ticks : m'.ticks_per_mean ≡ m.ticks_per_mean * 2
    period_count : m'.period_count ≡ m.period_count

  squash_means-Squashed :
      (m : MeanList)
      → IsValid m
      → m.ticks_per_mean < 32
      → Returns (squash_means float m) (Squashed m)
  unfolding squash_means
  squash_means-Squashed m v h =
      Returns-bind (squash_from float 10 0 m.means) _ (λ means. length means ≡ 20) (Squashed m)
        (squash_from-room 10 0 m.means v.slots (omega arith))
        (λ means w. record {
          valid = record {
            slots = w;
            index = omega arith;
            ticks = ground (arith, v.ticks);
            period = ground (arith, v.ticks, v.period);
          };
          room = omega arith;
          ticks = ground (arith, v.ticks);
          period_count = refl;
        })

  -- Once full and at the longest period, the list drops its oldest mean.
  push_mean-full :
      (m : MeanList)
      → length m.means ≡ 20
      → m.mean_index ≡ 20
      → m.ticks_per_mean ≡ 32
      → Returns (push_mean float m) (λ m'. IsValid m' × (m'.mean_index ≡ 20))
  unfolding push_mean
  push_mean-full m w e t =
      let wide = length-rotate_left m.means ∙ w in
      let mean = float.divided m.period_sum (float.from_u8 m.period_count) in
      let written = write_mean-ok (rotate_left m.means) 19 mean (omega (arith, wide)) in
      let full : (m.mean_index == 20 && m.ticks_per_mean == 32) ≡ true = ground arith in
      rw (full, written)
        (
          record {
            slots = length-set (rotate_left m.means) 19 mean ∙ wide;
            index = omega arith;
            ticks = omega arith;
            period = omega arith;
          },
          e,
        )

  push_mean-room :
      (m : MeanList)
      → length m.means ≡ 20
      → IsTicks m.ticks_per_mean
      → m.mean_index < 20
      → Returns (push_mean float m) (λ m'. IsValid m' × (m'.mean_index ≡ m.mean_index + 1))
  unfolding push_mean
  push_mean-room m w t h =
      let mean = float.divided m.period_sum (float.from_u8 m.period_count) in
      let written = write_mean-ok m.means m.mean_index mean (omega arith) in
      let open_slot : (m.mean_index == 20 && m.ticks_per_mean == 32) ≡ false = ground arith in
      rw (open_slot, written)
        (
          record {
            slots = length-set m.means m.mean_index mean ∙ w;
            index = omega arith;
            ticks = t;
            period = ground (arith, t);
          },
          omega arith,
        )

  -- A slot is free, or the list is full for good.
  abbrev HasRoom : MeanList → Type 0
  HasRoom m = (m.mean_index < 20) ⊎ ((m.mean_index ≡ 20) × (m.ticks_per_mean ≡ 32))

  push_mean-IsValid :
      (m : MeanList)
      → length m.means ≡ 20
      → IsTicks m.ticks_per_mean
      → HasRoom m
      → Returns (push_mean float m) IsValid
  push_mean-IsValid m w t (inl h) =
      Returns-mono (push_mean float m) _ IsValid (push_mean-room m w t h) (λ m' r. r.0)
  push_mean-IsValid m w t (inr h) =
      Returns-mono (push_mean float m) _ IsValid (push_mean-full m w h.0 h.1) (λ m' r. r.0)

  -- Adding a value answers whether that completed a period.
  push_value-IsValid :
      (m : MeanList) (val : ℕ)
      → IsValid m
      → HasRoom m
      → Returns
          (push_value float m val)
          (λ r. IsValid r.0 × ((r.1 ≡ true) ↔ (m.period_count + 1 ≡ m.ticks_per_mean)))
  unfolding push_value
  push_value-IsValid m val v room =
      let next : (m.period_count + 1) % u8_mod ≡ m.period_count + 1 =
        ground (arith, v.ticks, v.period) in
      elim (Bool-cases (m.period_count + 1 == m.ticks_per_mean)) [
        | inl e ↦
            rw (next, e)
              (Returns-bind _ _ IsValid _
                (push_mean-IsValid
                  (record m {
                    period_sum = float.plus m.period_sum val;
                    period_count = m.period_count + 1;
                  })
                  v.slots v.ticks room)
                (λ m' v'. (v', ((λ _. ground arith), λ _. refl))))
        | inr e ↦
            rw (next, e)
              (
                record {
                  slots = v.slots;
                  index = v.index;
                  ticks = v.ticks;
                  period = ground (arith, v.period);
                },
                ground arith,
              )
      ]

  -- The number of values that the period under way takes, once a full list is squashed.
  pub period_length : MeanList → ℕ
  period_length m =
      if m.mean_index == 20 && ltb m.ticks_per_mean 32
      then m.ticks_per_mean * 2
      else m.ticks_per_mean

  -- From a valid list, a push does not panic, as it would on an index out of range, and returns a
  -- valid list. It answers `true` exactly when the value completes its period.
  pub push-IsValid :
      (m : MeanList) (val : ℕ)
      → IsValid m
      → Returns
          (push float m val)
          (λ r. IsValid r.0 × ((r.1 ≡ true) ↔ (m.period_count + 1 ≡ period_length m)))
  unfolding push period_length
  push-IsValid m val v = elim (Bool-cases (m.mean_index == 20 && ltb m.ticks_per_mean 32)) [
    | inl e ↦ rw e (
        Returns-bind (squash_means float m) _ (Squashed m) _
          (squash_means-Squashed m v (ground arith))
          (λ m' q.
            Returns-mono (push_value float m' val) _ _
              (push_value-IsValid m' val q.valid (inl q.room))
              (λ r h. (
                h.0,
                (
                  (λ t. sym (ap (λ n. n + 1) q.period_count) ∙ h.1.0 t ∙ q.ticks),
                  λ p. h.1.1 (ap (λ n. n + 1) q.period_count ∙ p ∙ sym q.ticks),
                ),
              ))))
    | inr e ↦ rw e (push_value-IsValid m val v (ground (arith, v.ticks, v.index)))
  ]

  -- The means that are handed out are those pushed so far, and slicing does not panic.
  pub slice-IsValid :
      (m : MeanList) → IsValid m → Returns (slice float m) (λ xs. length xs ≡ m.mean_index)
  unfolding slice
  slice-IsValid m v =
      let within : leb m.mean_index (length m.means) ≡ true = ground (arith, v.slots, v.index) in
      rw within (length-take m.mean_index m.means (omega (arith, v.slots, v.index)))
