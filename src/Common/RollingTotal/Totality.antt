-- ===== src/Common/RollingTotal/Totality.antt =====
-- backend/common/src/rolling_total.rs: a push does not panic.
use substrate_telemetry.Prelude.{
  ℕ, zero, suc, ◌+◌, ◌-◌, ◌*◌, ◌%◌, ◌^◌, ◌<◌, ◌≡◌, ◌≢◌, refl, Bool, true, false, inl, inr, some,
  List, [], ◌∷◌, ◌++◌, arith, ok, Returns, Returns-bind, Bool-cases, ltb, saturating_add,
  saturating_sub, u64_mod,
}
use substrate_telemetry.Common.RollingTotal.{
  RollingTotalBuilder, RollingTotal, start, back, add_to_last, pop_old, divide, window, push,
  push_since, push_new,
}

-- What a total keeps from its start on: a bucket at least, and a granularity.
pub record Starts (r : RollingTotal) : Type 0 where
  pub some_bucket : r.averages ≢ []
  pub some_granularity : 0 < r.granularity

pub start-Starts : (now : ℕ) (b : RollingTotalBuilder) → 0 < b.granularity → Starts (start now b)
unfolding start
start-Starts now b h = record { some_bucket = λ e. cc; some_granularity = h }

-- The newest bucket is never before the window.
pop_old-Returns :
    (width t v total : ℕ) (es : List (ℕ × ℕ))
    → Returns (pop_old width t (es ++ (t, v) ∷ []) total) (λ r. r.0 ≢ [])
unfolding pop_old
pop_old-Returns width t v total [] = elim (Bool-cases (ltb (t + width) t)) [
  | inl y ↦ absurd (ground (arith, y))
  | inr n ↦ rw n (λ e. cc)
]
pop_old-Returns width t v total (e ∷ es) = elim (Bool-cases (ltb (e.0 + width) t)) [
  | inl y ↦ rw y (pop_old-Returns width t v (saturating_sub total e.1) es)
  | inr n ↦ rw n (λ k. cc)
]

back-some : (es : List (ℕ × ℕ)) → es ≢ [] → (e : ℕ × ℕ) × (back es ≡ some e)
unfolding back
back-some [] h = absurd (h refl)
back-some (e ∷ []) h = (e, refl)
back-some (e ∷ f ∷ es) h = back-some (f ∷ es) (λ k. cc)

add_to_last-some : (v : ℕ) (es : List (ℕ × ℕ)) → es ≢ [] → add_to_last v es ≢ []
unfolding add_to_last
add_to_last-some v [] h = h
add_to_last-some v (e ∷ []) h = λ k. cc
add_to_last-some v (e ∷ f ∷ es) h = λ k. cc

push_new-Starts :
    (value t steps : ℕ) (r : RollingTotal) → Starts r → Returns (push_new value t steps r) Starts
unfolding push_new
push_new-Starts value t steps r h =
    let u = t + (r.granularity % u64_mod) * (steps % 2 ^ 32) in
    Returns-bind
      (pop_old (window r) u (r.averages ++ (u, value) ∷ []) (saturating_add r.total value))
      (λ p. ok (record r { averages = p.0; total = p.1 })) (λ p. p.0 ≢ []) Starts
      (pop_old-Returns (window r) u value (saturating_add r.total value) r.averages)
      (λ p k. record { some_bucket = k; some_granularity = h.some_granularity })

divide-Returns : (a b : ℕ) → 0 < b → Returns (divide a b) (λ q. Unit)
unfolding divide
divide-Returns a zero h = absurd (omega (arith, h))
divide-Returns a (suc b) h = tt

push_since-Starts :
    (fits : Bool) (value t since : ℕ) (r : RollingTotal)
    → Starts r
    → Returns (push_since fits value t since r) Starts
unfolding push_since
push_since-Starts true value t since r h =
    Returns-bind (divide since r.granularity) (λ steps. push_new value t steps r) (λ q. Unit) Starts
      (divide-Returns since r.granularity h.some_granularity)
      (λ steps u. push_new-Starts value t steps r h)
push_since-Starts false value t since r h = record {
  some_bucket = add_to_last-some value r.averages h.some_bucket;
  some_granularity = h.some_granularity;
}

-- A total with a bucket and a granularity, as each is that a builder started with a granularity,
-- takes any value at any time without a panic, and stays so.
pub push-Starts : (now value : ℕ) (r : RollingTotal) → Starts r → Returns (push now value r) Starts
unfolding push
push-Starts now value r h =
    let (e, k) = back-some r.averages h.some_bucket in
    rw k (push_since-Starts _ value e.0 (now - e.0) r h)
