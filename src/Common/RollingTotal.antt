-- ===== src/Common/RollingTotal.antt =====
-- backend/common/src/rolling_total.rs: a total over a window of time, in buckets of the granularity.
-- Times and durations are nanoseconds, without the bound past which `Instant` and `Duration` panic;
-- what the time source says is an argument of each call. The values are a `u64`'s.
pub mod Buckets
pub mod Window
pub mod Totality
mod Examples
use substrate_telemetry.Prelude.{
  ℕ, Bool, true, false, zero, suc, ◌+◌, ◌-◌, ◌*◌, ◌/◌, ◌%◌, ◌^◌, Option, none, some, List, [], ◌∷◌,
  ◌++◌, ltb, leb, if◌then◌else◌, Run, ok, panic, ◌>>=◌, expect, u64_mod, sub64, saturating_add,
  saturating_sub,
}

abbrev u32_mod : ℕ
u32_mod = 2 ^ 32

pub record RollingTotalBuilder : Type 0 where
  pub window_size_multiple : ℕ
  pub granularity : ℕ

unfoldable pub new : RollingTotalBuilder
new = record { window_size_multiple = 10; granularity = 1000000000 }

unfoldable pub window_size_multiple : ℕ → RollingTotalBuilder → RollingTotalBuilder
window_size_multiple val b = record b { window_size_multiple = val }

unfoldable pub granularity : ℕ → RollingTotalBuilder → RollingTotalBuilder
granularity val b = record b { granularity = val }

-- A bucket is its time and its value; the oldest comes first.
pub record RollingTotal : Type 0 where
  pub window_size_multiple : ℕ
  pub granularity : ℕ
  pub averages : List (ℕ × ℕ)
  pub total : ℕ

unfoldable pub start : (now : ℕ) → RollingTotalBuilder → RollingTotal
start now b = record {
  window_size_multiple = b.window_size_multiple;
  granularity = b.granularity;
  averages = (now, 0) ∷ [];
  total = 0;
}

-- `averages.back()`
unfoldable pub back : List (ℕ × ℕ) → Option (ℕ × ℕ)
back [] = none
back (e ∷ []) = some e
back (e ∷ f ∷ es) = back (f ∷ es)

-- `*last_val = last_val.saturating_add(&value)`
unfoldable pub add_to_last : ℕ → List (ℕ × ℕ) → List (ℕ × ℕ)
add_to_last value [] = []
add_to_last value (e ∷ []) = (e.0, saturating_add e.1 value) ∷ []
add_to_last value (e ∷ f ∷ es) = e ∷ add_to_last value (f ∷ es)

-- A division, which panics on zero.
pub divide : ℕ → ℕ → Run ℕ
divide a zero = panic
divide a (suc b) = ok (a / suc b)

-- The window, less the bucket that is being filled: `granularity * (multiple - 1) as u32`.
pub window : RollingTotal → ℕ
window r = r.granularity * (sub64 r.window_size_multiple 1 % u32_mod)

-- The loop that removes the buckets before `time - width`.
pub pop_old : (width time : ℕ) → List (ℕ × ℕ) → ℕ → Run (List (ℕ × ℕ) × ℕ)
pop_old width time [] total = panic
pop_old width time (e ∷ es) total =
    let rest = pop_old width time es (saturating_sub total e.1) in
    if ltb (e.0 + width) time then rest else ok (e ∷ es, total)

-- The time doesn't fit into the last bucket.
push_new : (value last_time steps : ℕ) → RollingTotal → Run RollingTotal
unfolding pop_old window
push_new value last_time steps r =
    let time = last_time + (r.granularity % u64_mod) * (steps % u32_mod) in
    do
      (buckets, total) ←
          pop_old (window r) time (r.averages ++ (time, value) ∷ []) (saturating_add r.total value)
      ok (record r { averages = buckets; total = total })

-- With whether the time since the last bucket is a granularity or more.
unfoldable pub push_since : Bool → (value last_time since : ℕ) → RollingTotal → Run RollingTotal
unfolding divide push_new add_to_last
push_since true value last_time since r = do
  steps ← divide since r.granularity
  push_new value last_time steps r
push_since false value last_time since r =
    ok (record r { averages = add_to_last value r.averages; total = saturating_add r.total value })

-- `push`; `duration_since` is zero for an earlier time.
unfoldable pub push : (now value : ℕ) → RollingTotal → Run RollingTotal
unfolding back push_since
push now value r = do
  last ← expect (back r.averages)
  push_since (leb r.granularity (now - last.0)) value last.0 (now - last.0) r

unfoldable pub total : RollingTotal → ℕ
total r = r.total
