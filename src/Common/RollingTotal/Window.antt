-- ===== src/Common/RollingTotal/Window.antt =====
-- backend/common/src/rolling_total.rs: the total is that of the buckets in the window.
use substrate_telemetry.Prelude.{
  ℕ, zero, suc, ◌+◌, ◌-◌, ◌*◌, ◌/◌, ◌%◌, ◌^◌, ◌≤◌, ◌<◌, ◌≡◌, refl, Bool, true, false, List, [], ◌∷◌,
  ◌++◌, arith, length, leb, ◌∙◌, ok, Returns, Returns-bind, leb→le, sub64_small, saturating_add,
  u64_mod,
}
use native.Mathlib.Nat.{
  mod-eq_of_lt, div-lt_iff_lt-mul, le-div_iff_mul-le, le-mul_of_pos_right, le_of_mul-le-mul_right,
  mul-le-mul_left, mul_comm, mod-le,
}
use substrate_telemetry.Common.RollingTotal.{
  RollingTotalBuilder, RollingTotal, start, pop_old, divide, window, push, push_since, push_new,
}
use substrate_telemetry.Common.RollingTotal.Buckets.{
  Ladder, Fits, values, back-Ladder, append-Ladder, values-append, add_to_last-Ladder,
  add_to_last-Fits, values-add_to_last, pop_old_lem,
}

-- The newest bucket is at `t`, the buckets are a granularity apart and in the window, and the
-- cached total is theirs.
pub record IsValid (t : ℕ) (r : RollingTotal) : Type 0 where
  pub ladder : Ladder r.granularity t r.averages
  pub fits : Fits (window r) t r.averages
  pub agrees : r.total ≡ values r.averages

pub start-IsValid : (now : ℕ) (b : RollingTotalBuilder) → IsValid now (start now b)
unfolding start
start-IsValid now b = record { ladder = refl; fits = omega arith; agrees = refl }

saturating_add_small : (a b : ℕ) → a + b < u64_mod → saturating_add a b ≡ a + b
unfolding saturating_add
saturating_add_small a b h = ground (arith, h)

-- A valid total with the settings of another.
pub Follows : RollingTotal → RollingTotal → Type 0
Follows r s =
    (u : ℕ) × ((s.granularity ≡ r.granularity)
      × ((s.window_size_multiple ≡ r.window_size_multiple) × IsValid u s))

push_new-IsValid :
    (value t steps : ℕ) (r : RollingTotal)
    → IsValid t r
    → r.total + value < u64_mod
    → r.granularity ≤ (r.granularity % u64_mod) * (steps % 2 ^ 32)
    → Returns (push_new value t steps r) (Follows r)
unfolding push_new window Follows
push_new-IsValid value t steps r h small far =
    let u = t + (r.granularity % u64_mod) * (steps % 2 ^ 32) in
    Returns-bind
      (pop_old (window r) u (r.averages ++ (u, value) ∷ []) (saturating_add r.total value))
      (λ p. ok (record r { averages = p.0; total = p.1 }))
      (λ p. Ladder r.granularity u p.0 × (Fits (window r) u p.0 × (p.1 ≡ values p.0))) (Follows r)
      (pop_old_lem r.granularity (window r) u (saturating_add r.total value)
        (r.averages ++ (u, value) ∷ [])
        (append-Ladder r.granularity t u value r.averages h.ladder (omega (arith, far)))
        (saturating_add_small r.total value small
          ∙ omega (arith, h.agrees, values-append r.averages u value)))
      (λ p k. (u, (refl, (refl, record { ladder = k.0; fits = k.1.0; agrees = k.1.1 }))))

-- Some steps of a granularity, none of them cut off, are at least one granularity.
far_enough :
    (g since : ℕ)
    → 0 < g
    → g ≤ since
    → g < u64_mod
    → since < 2 ^ 32 * g
    → g ≤ (g % u64_mod) * (since / g % 2 ^ 32)
far_enough g since pos a b c =
    rw (mod-eq_of_lt b, mod-eq_of_lt ((div-lt_iff_lt-mul {x = since} {y = 2 ^ 32} pos).1 c))
      (le-mul_of_pos_right g ((le-div_iff_mul-le {x = 1} {y = since} pos).1 (omega arith)))

divide_lem : (a b : ℕ) → 0 < b → divide a b ≡ ok (a / b)
unfolding divide
divide_lem a zero h = absurd (omega (arith, h))
divide_lem a (suc b) h = refl

push_since-IsValid :
    (fits : Bool) (value t since : ℕ) (r : RollingTotal)
    → leb r.granularity since ≡ fits
    → 0 < r.granularity
    → IsValid t r
    → r.total + value < u64_mod
    → r.granularity < u64_mod
    → since < 2 ^ 32 * r.granularity
    → Returns (push_since fits value t since r) (Follows r)
unfolding push_since Follows window
push_since-IsValid true value t since r y pos h small b c =
    rw (divide_lem since r.granularity pos) (
      push_new-IsValid value t (since / r.granularity) r h small
        (far_enough r.granularity since pos (leb→le r.granularity since y) b c))
push_since-IsValid false value t since r n pos h small b c = (
  t,
  (
    refl,
    (
      refl,
      record {
        ladder = add_to_last-Ladder r.granularity t value r.averages h.ladder;
        fits = add_to_last-Fits (window r) t value r.averages h.fits;
        agrees =
            saturating_add_small r.total value small
            ∙ omega (
              arith,
              h.agrees,
              values-add_to_last r.granularity t value r.averages h.ladder
                  (omega (arith, h.agrees, small)),
            );
      },
    ),
  ),
)

-- If the buckets are valid, a push returns and leaves them valid, for a value that does not take
-- the total to 2^64 and a time less than 2^32 granularities after the newest bucket: the total is
-- the sum of the buckets, which are a granularity apart, and none is older than the window.
pub push-Follows :
    (now value t : ℕ) (r : RollingTotal)
    → 0 < r.granularity
    → IsValid t r
    → r.total + value < u64_mod
    → r.granularity < u64_mod
    → now < t + 2 ^ 32 * r.granularity
    → Returns (push now value r) (Follows r)
unfolding push
push-Follows now value t r pos h small b c =
    let (v, e) = back-Ladder r.granularity t r.averages h.ladder in
    rw e (push_since-IsValid _ value t (now - t) r refl pos h small b (omega (arith, c, pos)))

-- The buckets after the first take up a granularity each.
length-Ladder :
    (g t : ℕ) (e : ℕ × ℕ) (es : List (ℕ × ℕ)) → Ladder g t (e ∷ es) → e.0 + length es * g ≤ t
length-Ladder g t e [] h = omega (arith, h)
length-Ladder g t e (f ∷ es) h = omega (arith, h.0, length-Ladder g t f es h.1)

length-Fits :
    (width g t m : ℕ) (es : List (ℕ × ℕ))
    → 0 < g
    → 0 < m
    → width ≤ (m - 1) * g
    → Ladder g t es
    → Fits width t es
    → length es ≤ m
length-Fits width g t m [] a b c h k = absurd h
length-Fits width g t m (e ∷ es) a b c h k =
    let short =
      le_of_mul-le-mul_right {m = length es} {n = m - 1}
        (omega (arith, length-Ladder g t e es h, c, k)) a in
    omega (arith, short, b)

window_short :
    (r : RollingTotal)
    → 0 < r.window_size_multiple
    → window r ≤ (r.window_size_multiple - 1) * r.granularity
unfolding window
window_short r m =
    rw (sub64_small r.window_size_multiple 1 m, mul_comm (r.window_size_multiple - 1) r.granularity)
      (mul-le-mul_left r.granularity (mod-le (r.window_size_multiple - 1) (2 ^ 32)))

-- A valid total holds at most as many buckets as the window is granularities wide.
pub length-averages :
    (t : ℕ) (r : RollingTotal)
    → IsValid t r
    → 0 < r.granularity
    → 0 < r.window_size_multiple
    → length r.averages ≤ r.window_size_multiple
length-averages t r h pos m =
    length-Fits (window r) r.granularity t r.window_size_multiple r.averages pos m
      (window_short r m) h.ladder h.fits
