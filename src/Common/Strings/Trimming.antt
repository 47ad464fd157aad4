-- ===== src/Common/Strings/Trimming.antt =====
-- The standard library's `str::trim`: a text that neither begins nor ends with white space.
use substrate_telemetry.Prelude.{
  ℕ, ◌≡◌, refl, ap, ◌∙◌, Bool, true, false, ◌&&◌, [], ◌∷◌, Text, ltb, arith,
}
use mathlib.Core.List.{reverse, reverse-reverse}
use substrate_telemetry.Common.Strings.{white_first, white_last, trim_with, trim}

-- An ASCII character that can be seen.
abbrev pub is_visible : ℕ → Bool
is_visible b = ltb 32 b && ltb b 128

visible-white_first : (b : ℕ) (bs : Text) → is_visible b ≡ true → white_first (b ∷ bs) ≡ 0
visible-white_first b [] h = ground (arith, h)
visible-white_first b (c ∷ []) h = ground (arith, h)
visible-white_first b (c ∷ d ∷ bs) h = ground (arith, h)

visible-white_last : (b : ℕ) (bs : Text) → is_visible b ≡ true → white_last (b ∷ bs) ≡ 0
visible-white_last b [] h = ground (arith, h)
visible-white_last b (c ∷ []) h = ground (arith, h)
visible-white_last b (c ∷ d ∷ bs) h = ground (arith, h)

abbrev pub begins_visible : Text → Bool
begins_visible [] = false
begins_visible (b ∷ bs) = is_visible b

trim_with-kept : (white : Text → ℕ) (text : Text) → white text ≡ 0 → trim_with white 0 text ≡ text
unfolding trim_with
trim_with-kept white [] h = refl
trim_with-kept white (b ∷ bs) h = rw h refl

first_kept : (text : Text) → begins_visible text ≡ true → white_first text ≡ 0
first_kept [] h = refl
first_kept (b ∷ bs) h = visible-white_first b bs h

last_kept : (text : Text) → begins_visible text ≡ true → white_last text ≡ 0
last_kept [] h = refl
last_kept (b ∷ bs) h = visible-white_last b bs h

pub trim-visible :
    (text : Text)
    → begins_visible text ≡ true
    → begins_visible (reverse text) ≡ true
    → trim text ≡ text
unfolding trim
trim-visible text h k =
    ap (λ t. reverse (trim_with white_last 0 (reverse t)))
      (trim_with-kept white_first text (first_kept text h))
    ∙ ap reverse (trim_with-kept white_last (reverse text) (last_kept (reverse text) k))
    ∙ reverse-reverse text
