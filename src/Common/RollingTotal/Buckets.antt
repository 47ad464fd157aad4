-- ===== src/Common/RollingTotal/Buckets.antt =====
-- backend/common/src/rolling_total.rs: the list of buckets.
use substrate_telemetry.Prelude.{
  ℕ, ◌+◌, ◌-◌, ◌≤◌, ◌<◌, ◌≡◌, refl, inl, inr, some, List, [], ◌∷◌, ◌++◌, arith, ltb, Returns,
  Bool-cases, saturating_add, saturating_sub, u64_mod,
}
use substrate_telemetry.Common.RollingTotal.{back, add_to_last, pop_old}

-- The buckets end at time `t`, and each is at least `g` after the one before.
abbrev pub Ladder : (g t : ℕ) → List (ℕ × ℕ) → Type 0
Ladder g t [] = ⊥
Ladder g t (e ∷ []) = e.0 ≡ t
Ladder g t (e ∷ f ∷ es) = (e.0 + g ≤ f.0) × Ladder g t (f ∷ es)

-- The first bucket is at most `width` before time `t`.
abbrev pub Fits : (width t : ℕ) → List (ℕ × ℕ) → Type 0
Fits width t [] = ⊥
Fits width t (e ∷ es) = t ≤ e.0 + width

abbrev pub values : List (ℕ × ℕ) → ℕ
values [] = 0
values (e ∷ es) = e.1 + values es

pub back-Ladder : (g t : ℕ) (es : List (ℕ × ℕ)) → Ladder g t es → (v : ℕ) × (back es ≡ some (t, v))
unfolding back
back-Ladder g t [] h = absurd h
back-Ladder g t (e ∷ []) h = (e.1, rw h refl)
back-Ladder g t (e ∷ f ∷ es) h = back-Ladder g t (f ∷ es) h.1

pub append-Ladder :
    (g t u v : ℕ) (es : List (ℕ × ℕ)) → Ladder g t es → t + g ≤ u → Ladder g u (es ++ (u, v) ∷ [])
append-Ladder g t u v [] h k = absurd h
append-Ladder g t u v (e ∷ []) h k = (omega (arith, h, k), refl)
append-Ladder g t u v (e ∷ f ∷ es) h k = (h.0, append-Ladder g t u v (f ∷ es) h.1 k)

pub values-append : (es : List (ℕ × ℕ)) (u v : ℕ) → values (es ++ (u, v) ∷ []) ≡ values es + v
values-append [] u v = omega arith
values-append (e ∷ es) u v = omega (arith, values-append es u v)

pub add_to_last-Ladder :
    (g t v : ℕ) (es : List (ℕ × ℕ)) → Ladder g t es → Ladder g t (add_to_last v es)
unfolding add_to_last
add_to_last-Ladder g t v [] h = h
add_to_last-Ladder g t v (e ∷ []) h = h
add_to_last-Ladder g t v (e ∷ f ∷ []) h = h
add_to_last-Ladder g t v (e ∷ f ∷ k ∷ es) h = (h.0, add_to_last-Ladder g t v (f ∷ k ∷ es) h.1)

pub add_to_last-Fits :
    (width t v : ℕ) (es : List (ℕ × ℕ)) → Fits width t es → Fits width t (add_to_last v es)
unfolding add_to_last
add_to_last-Fits width t v [] h = h
add_to_last-Fits width t v (e ∷ []) h = h
add_to_last-Fits width t v (e ∷ f ∷ es) h = h

pub values-add_to_last :
    (g t v : ℕ) (es : List (ℕ × ℕ))
    → Ladder g t es
    → values es + v < u64_mod
    → values (add_to_last v es) ≡ values es + v
unfolding add_to_last saturating_add
values-add_to_last g t v [] h k = absurd h
values-add_to_last g t v (e ∷ []) h k = ground (arith, k)
values-add_to_last g t v (e ∷ f ∷ es) h k =
    omega (arith, values-add_to_last g t v (f ∷ es) h.1 (omega (arith, k)))

-- Removing the buckets before the window ends, before the last bucket, and keeps the total.
pub pop_old_lem :
    (g width t total : ℕ) (es : List (ℕ × ℕ))
    → Ladder g t es
    → total ≡ values es
    → Returns
        (pop_old width t es total)
        (λ r. Ladder g t r.0 × (Fits width t r.0 × (r.1 ≡ values r.0)))
unfolding pop_old saturating_sub
pop_old_lem g width t total [] h e = h
pop_old_lem g width t total (b ∷ []) h e = ground (arith, h, e)
pop_old_lem g width t total (b ∷ c ∷ es) h e = elim (Bool-cases (ltb (b.0 + width) t)) [
  | inl y ↦ rw y (pop_old_lem g width t (total - b.1) (c ∷ es) h.1 (omega (arith, e)))
  | inr n ↦ rw n (h, (ground (arith, n), e))
]
