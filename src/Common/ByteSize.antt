-- ===== src/Common/ByteSize.antt =====
-- backend/common/src/byte_size.rs: numbers of bytes as options give them. Multiplication wraps, as in a
-- release build.
mod Sizes
mod Examples
use substrate_telemetry.Prelude.{
  ℕ, ◌*◌, ◌%◌, ◌⊎◌, inl, inr, Option, none, some, [], ◌∷◌, Text, text_key, if◌then◌else◌, Run, ok,
  ◌>>=◌, expect, u64_mod,
}
use substrate_telemetry.Prelude.HashMap
use substrate_telemetry.Prelude.HashMap.{HashMap}
use substrate_telemetry.Common.Parse.{is_digit, parse_u64}
use substrate_telemetry.Common.Strings.{trim}

abbrev pub ByteSize : Type 0
ByteSize = ℕ

-- "Cannot parse into bytes", with the suffix that is not known.
pub data Error : Type 0 where
  unknown_suffix : Text → Error

-- The suffixes, with what they multiply by.
abbrev pub units : HashMap Text ℕ
units =
    (b'B' ∷ [], 1)
    ∷ (b'b' ∷ [], 1)
    ∷ (b'k' ∷ b'B' ∷ [], 1000)
    ∷ (b'K' ∷ [], 1000)
    ∷ (b'k' ∷ [], 1000)
    ∷ (b'M' ∷ b'B' ∷ [], 1000000)
    ∷ (b'M' ∷ [], 1000000)
    ∷ (b'm' ∷ [], 1000000)
    ∷ (b'G' ∷ b'B' ∷ [], 1000000000)
    ∷ (b'G' ∷ [], 1000000000)
    ∷ (b'g' ∷ [], 1000000000)
    ∷ (b'K' ∷ b'i' ∷ b'B' ∷ [], 1024)
    ∷ (b'K' ∷ b'i' ∷ [], 1024)
    ∷ (b'M' ∷ b'i' ∷ b'B' ∷ [], 1048576)
    ∷ (b'M' ∷ b'i' ∷ [], 1048576)
    ∷ (b'G' ∷ b'i' ∷ b'B' ∷ [], 1073741824)
    ∷ (b'G' ∷ b'i' ∷ [], 1073741824)
    ∷ []

-- The text up to the first byte that is not a digit, and the text from there on, if there is such a byte.
pub find_non_digit : Text → Text × Option Text
find_non_digit [] = ([], none)
find_non_digit (b ∷ bs) =
    let rest = find_non_digit bs in if is_digit b then (b ∷ rest.0, rest.1) else ([], some (b ∷ bs))

-- A number with the multiplier of its suffix.
pub sized : ℕ → Option ℕ → (suffix : Text) → Error ⊎ ByteSize
sized n none suffix = inl (unknown_suffix suffix)
sized n (some factor) suffix = inr ((n * factor) % u64_mod)

-- A number with what follows its digits.
pub with_suffix : ℕ → Option Text → Error ⊎ ByteSize
unfolding sized trim
with_suffix n none = inr n
with_suffix n (some suffix) = sized n (HashMap.get (trim suffix) units) (trim suffix)

pub from_parts : Text × Option Text → Run (Error ⊎ ByteSize)
unfolding with_suffix
from_parts (digits, suffix) = do n ← expect (parse_u64 digits); ok (with_suffix n suffix)

pub from_str : Text → Run (Error ⊎ ByteSize)
unfolding find_non_digit from_parts trim
from_str s = from_parts (find_non_digit (trim s))
