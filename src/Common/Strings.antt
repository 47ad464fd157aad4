-- ===== src/Common/Strings.antt =====
-- What the code uses of the standard library's `str`, on the bytes of a text: splitting at an ASCII
-- byte, the part before or after a place, and trimming of white space, which is Unicode's.
pub mod Splitting
pub mod Trimming
use substrate_telemetry.Prelude.{
  ℕ, zero, suc, ◌-◌, Bool, false, ◌&&◌, ◌||◌, Option, none, some, List, [], ◌∷◌, Text, leb, ◌==◌,
  length, take, drop, if◌then◌else◌, map_option, ℕ_discrete, Run, ok, panic,
}
use mathlib.Core.List.{reverse}

-- A byte in front of the first of some parts.
abbrev cons_first : ℕ → List Text → List Text
cons_first b [] = (b ∷ []) ∷ []
cons_first b (part ∷ parts) = (b ∷ part) ∷ parts

-- `text.split(c)`
abbrev pub split : ℕ → Text → List Text
split c [] = [] ∷ []
split c (b ∷ bs) = let rest = split c bs in if b == c then [] ∷ rest else cons_first b rest

-- `text.rsplit(c)`
abbrev pub rsplit : ℕ → Text → List Text
rsplit c text = reverse (split c text)

-- `text.get(..k)` and `text.get(k..)`, where a character begins at `k`
unfoldable pub get_to : ℕ → Text → Option Text
get_to k text = if leb k (length text) then some (take k text) else none

unfoldable pub get_from : ℕ → Text → Option Text
get_from k text = if leb k (length text) then some (drop k text) else none

-- `text.splitn(2, c)`, where there are two parts
abbrev pub split_once : ℕ → Text → Option (Text × Text)
split_once c [] = none
split_once c (b ∷ bs) = elim (ℕ_discrete b c) [
  | yes _ ↦ some ([], bs)
  | no _ ↦ map_option (λ parts. (b ∷ parts.0, parts.1)) (split_once c bs)
]

-- `text.starts_with(c)` and `text.ends_with(c)`
abbrev pub starts_with : ℕ → Text → Bool
starts_with c [] = false
starts_with c (b ∷ bs) = b == c

abbrev pub ends_with : ℕ → Text → Bool
ends_with c text = starts_with c (reverse text)

-- `text[a..b]`, where characters begin at `a` and at `b`
unfoldable pub slice : (a b : ℕ) → Text → Run Text
slice a b text = if leb a b && leb b (length text) then ok (drop a (take b text)) else panic

-- The characters of white space, by how many bytes they have: U+9 to U+D and U+20; U+85 and U+A0;
-- U+1680, U+2000 to U+200A, U+2028, U+2029, U+202F, U+205F and U+3000.
abbrev pub is_white : ℕ → Bool
is_white a = a == 32 || (leb 9 a && leb a 13)

abbrev is_white_2 : ℕ → ℕ → Bool
is_white_2 a b = a == 194 && (b == 133 || b == 160)

abbrev is_white_3 : ℕ → ℕ → ℕ → Bool
is_white_3 a b c =
    (a == 225 && b == 154 && c == 128)
    || (a == 226 && b == 128 && ((leb 128 c && leb c 138) || c == 168 || c == 169 || c == 175))
    || (a == 226 && b == 129 && c == 159)
    || (a == 227 && b == 128 && c == 128)

-- How many bytes the white space has that a text begins with, or ends with when it is reversed.
abbrev pub white_first : Text → ℕ
white_first [] = 0
white_first (a ∷ []) = if is_white a then 1 else 0
white_first (a ∷ b ∷ []) = if is_white a then 1 else if is_white_2 a b then 2 else 0
white_first (a ∷ b ∷ c ∷ bs) =
    if is_white a then 1 else if is_white_2 a b then 2 else if is_white_3 a b c then 3 else 0

abbrev pub white_last : Text → ℕ
white_last [] = 0
white_last (a ∷ []) = if is_white a then 1 else 0
white_last (b ∷ a ∷ []) = if is_white b then 1 else if is_white_2 a b then 2 else 0
white_last (c ∷ b ∷ a ∷ bs) =
    if is_white c then 1 else if is_white_2 b c then 2 else if is_white_3 a b c then 3 else 0

-- Drops `k` bytes, and then white space.
pub trim_with : (Text → ℕ) → (k : ℕ) → Text → Text
trim_with white k [] = []
trim_with white (suc k) (b ∷ bs) = trim_with white k bs
trim_with white zero (b ∷ bs) =
    let k = white (b ∷ bs) in
    let rest = trim_with white (k - 1) bs in if k == 0 then b ∷ bs else rest

unfoldable pub trim : Text → Text
unfolding trim_with
trim text = reverse (trim_with white_last 0 (reverse (trim_with white_first 0 text)))
