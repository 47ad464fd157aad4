-- ===== src/Prelude/Words.antt =====
-- `u64` and `usize` arithmetic as the release build runs it: sums and differences wrap around.
use Prim.Native.Nat.{ℕ, ◌+◌, ◌-◌, ◌%◌, ◌^◌, ◌≤◌, ◌<◌}
use mathlib.Core.Path.{◌≡◌}
use native.Mathlib.Omega.{arith}
use substrate_telemetry.Prelude.Tests.{ltb, leb, if◌then◌else◌}

-- The number of values of a `u64`.
abbrev pub u64_mod : ℕ
u64_mod = 2 ^ 64

abbrev pub u64_max : ℕ
u64_max = 2 ^ 64 - 1

-- `a + b`, `a - b`, and their saturating versions, of numbers below `u64_mod`.
unfoldable pub add64 : ℕ → ℕ → ℕ
add64 a b = (a + b) % u64_mod

unfoldable pub sub64 : ℕ → ℕ → ℕ
sub64 a b = if leb b a then a - b else a + u64_mod - b

unfoldable pub saturating_add : ℕ → ℕ → ℕ
saturating_add a b = if ltb u64_max (a + b) then u64_max else a + b

unfoldable pub saturating_sub : ℕ → ℕ → ℕ
saturating_sub a b = a - b

pub add64_small : (a b : ℕ) → a + b < u64_mod → add64 a b ≡ a + b
unfolding add64
add64_small a b h = omega arith

pub sub64_small : (a b : ℕ) → b ≤ a → sub64 a b ≡ a - b
unfolding sub64
sub64_small a b h = ground arith
