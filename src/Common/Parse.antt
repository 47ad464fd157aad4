-- ===== src/Common/Parse.antt =====
-- Numbers in text, as the standard library's `str::parse::<u64>` reads them.
use substrate_telemetry.Prelude.{
  ℕ, ◌+◌, ◌-◌, ◌*◌, Bool, ◌&&◌, Option, none, some, [], ◌∷◌, Text, leb, ◌==◌, if◌then◌else◌,
  u64_max,
}

abbrev pub is_digit : ℕ → Bool
is_digit b = leb b'0' b && leb b b'9'

-- The digits after those that gave `n`; a number above `u64::MAX` is an error.
pub parse_digits : ℕ → Text → Option ℕ
parse_digits n [] = some n
parse_digits n (b ∷ bs) =
    let n' = n * 10 + (b - b'0') in
    let rest = parse_digits n' bs in if is_digit b && leb n' u64_max then rest else none

-- One sign `+` may stand in front of the digits.
unfoldable pub parse_u64 : Text → Option ℕ
unfolding parse_digits
parse_u64 [] = none
parse_u64 (b ∷ []) = parse_digits 0 (b ∷ [])
parse_u64 (b ∷ c ∷ bs) = if b == b'+' then parse_digits 0 (c ∷ bs) else parse_digits 0 (b ∷ c ∷ bs)
