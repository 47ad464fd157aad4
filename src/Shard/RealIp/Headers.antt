-- ===== src/Shard/RealIp/Headers.antt =====
-- backend/telemetry_shard/src/real_ip.rs: what a `Forwarded` header gives that is written as in RFC
-- 7239, and where the address comes from.
use substrate_telemetry.Prelude.{
  ℕ, suc, ◌≡◌, refl, ap, ◌∙◌, true, false, Option, none, some, List, [], ◌∷◌, ◌++◌, map, Text, leb,
  length, length-append, All, arith, inl, inr, Bool-cases, if◌then◌else◌, ok,
}
use mathlib.Core.List.{reverse-append}
use substrate_telemetry.Common.Strings.{split, split_once, starts_with, slice, trim}
use substrate_telemetry.Common.Strings.Splitting.{
  Without, joined, split-parts, split-append, split-Without, Without-joined, split_once-append,
  take-append,
}
use substrate_telemetry.Shard.RealIp.{
  comma, semicolon, equals, quote, is_for, unquoted, for_value, first_for, first,
  get_first_addr_from_forwarded_header,
}

-- A value is a token, which has no quote in front, or stands in quotes.
pub data Value : Type 0 where
  token : Text → Value
  quoted : Text → Value

abbrev pub content : Value → Text
content (token text) = text
content (quoted text) = text

abbrev pub write_value : Value → Text
write_value (token text) = text
write_value (quoted text) = quote ∷ (text ++ quote ∷ [])

abbrev pub write_pair : Text × Value → Text
write_pair (key, value) = key ++ equals ∷ write_value value

abbrev pub IsToken : Value → Type 0
IsToken (token text) = starts_with quote text ≡ false
IsToken (quoted text) = Unit

-- A pair that is read as it was written.
pub record Written (pair : Text × Value) : Type 0 where
  pub key : Without equals pair.0
  pub no_semicolon : Without semicolon (write_pair pair)
  pub no_comma : Without comma (write_pair pair)
  pub trimmed : trim (write_pair pair) ≡ write_pair pair
  pub value : IsToken pair.1

-- The content of the first value whose key is "for".
abbrev pub lookup_for : List (Text × Value) → Option Text
lookup_for [] = none
lookup_for ((key, value) ∷ pairs) = if is_for key then some (content value) else lookup_for pairs

slice-quoted : (text : Text) → slice 1 (suc (length text)) (quote ∷ (text ++ quote ∷ [])) ≡ ok text
unfolding slice
slice-quoted text =
    let low : leb 1 (suc (length text)) ≡ true = ground arith in
    let high : leb (suc (length text)) (suc (length (text ++ quote ∷ []))) ≡ true =
      ground (arith, length-append text (quote ∷ [])) in
    rw (low, high, take-append text (quote ∷ [])) refl

unquoted-write_value :
    (value : Value) → IsToken value → unquoted (write_value value) ≡ ok (content value)
unfolding unquoted
unquoted-write_value (token text) h = rw h refl
unquoted-write_value (quoted text) h = rw (reverse-append (quote ∷ text) (quote ∷ [])) (
    ap (λ n. slice 1 n (quote ∷ (text ++ quote ∷ [])))
      (omega (arith, length-append text (quote ∷ [])))
    ∙ slice-quoted text)

for_value-Written :
    (pair : Text × Value) (pairs : List (Text × Value))
    → Written pair
    → for_value (split_once equals (trim (write_pair pair))) (ok (lookup_for pairs))
      ≡ ok (lookup_for (pair ∷ pairs))
unfolding for_value
for_value-Written (key, value) pairs w =
    rw
      (
        w.trimmed,
        split_once-append equals key (write_value value) w.key,
        unquoted-write_value value w.value,
      )
      (elim (Bool-cases (is_for key)) [ inl e ↦ rw e refl | inr e ↦ rw e refl ])

first_for-Written :
    (pairs : List (Text × Value))
    → All Written pairs
    → first_for (map write_pair pairs) ≡ ok (lookup_for pairs)
unfolding first_for
first_for-Written [] h = refl
first_for-Written (pair ∷ pairs) h =
    rw (first_for-Written pairs h.1) (for_value-Written pair pairs h.0)

first-split :
    (c : ℕ) (text : Text) (others : List Text)
    → Without c text
    → first (split c (joined c text others)) ≡ some text
first-split c text [] h = rw (split-Without c text h) refl
first-split c text (other ∷ others) h =
    rw (split-append c text (joined c other others), split-Without c text h) refl

All-map :
    (P : Text → Type 0) (pairs : List (Text × Value))
    → All Written pairs
    → ((p : Text × Value) → Written p → P (write_pair p))
    → All P (map write_pair pairs)
All-map P [] h f = tt
All-map P (p ∷ ps) h f = (f p h.0, All-map P ps h.1 f)

-- A `Forwarded` header that the first proxy wrote as pairs of keys and values, of which some stand in
-- quotes, gives the first value whose key is "for", without quotes, or nothing if there is none,
-- whatever other proxies appended behind a comma. Of each pair this supposes that its key has no
-- equals sign, that it has no comma and no semicolon, also not in quotes, that it begins and ends
-- with no white space, and that a value which does not stand in quotes does not begin with one.
pub get_first_addr-Written :
    (pair : Text × Value) (pairs : List (Text × Value)) (others : List Text)
    → All Written (pair ∷ pairs)
    → get_first_addr_from_forwarded_header
        (joined comma (joined semicolon (write_pair pair) (map write_pair pairs)) others)
      ≡ ok (lookup_for (pair ∷ pairs))
unfolding get_first_addr_from_forwarded_header
get_first_addr-Written pair pairs others h =
    rw
      (
        first-split comma (joined semicolon (write_pair pair) (map write_pair pairs)) others (
            Without-joined comma semicolon (write_pair pair) (map write_pair pairs) refl
              (All-map (Without comma) (pair ∷ pairs) h (λ p w. w.no_comma))),
        split-parts semicolon (write_pair pair) (map write_pair pairs)
            (All-map (Without semicolon) (pair ∷ pairs) h (λ p w. w.no_semicolon)),
      )
      (first_for-Written (pair ∷ pairs) h)
