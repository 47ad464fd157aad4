-- ===== src/Common/Strings/Splitting.antt =====
-- The standard library's `str::split`: the parts of a text that was put together.
use substrate_telemetry.Prelude.{
  ℕ, ◌≡◌, refl, ap, sym, ◌∙◌, false, List, [], ◌∷◌, ◌++◌, Text, ◌==◌, All, length, take, drop,
  arith, Bool-cases, inl, inr, some, length-append,
}
use substrate_telemetry.Common.Strings.{cons_first, split, split_once, get_to, get_from}
use mathlib.Core.List.{append-nil}

-- The byte `c` does not stand in the text.
abbrev pub Without : ℕ → Text → Type 0
Without c text = All (λ b. (b == c) ≡ false) text

pub split-Without : (c : ℕ) (text : Text) → Without c text → split c text ≡ text ∷ []
split-Without c [] h = refl
split-Without c (b ∷ bs) h = rw (h.0, split-Without c bs h.1) refl

cons_first-cons_first :
    (b d : ℕ) (ps qs : List Text)
    → cons_first b (cons_first d ps ++ qs) ≡ cons_first b (cons_first d ps) ++ qs
cons_first-cons_first b d [] qs = refl
cons_first-cons_first b d (p ∷ ps) qs = refl

cons_first-append :
    (b : ℕ) (c : ℕ) (text : Text) (parts : List Text)
    → cons_first b (split c text ++ parts) ≡ cons_first b (split c text) ++ parts
cons_first-append b c [] parts = refl
cons_first-append b c (d ∷ text) parts = elim (Bool-cases (d == c)) [
  | inl e ↦ rw e refl
  | inr e ↦ rw e (cons_first-cons_first b d (split c text) parts)
]

pub split-append : (c : ℕ) (xs ys : Text) → split c (xs ++ c ∷ ys) ≡ split c xs ++ split c ys
split-append c [] ys = ground arith
split-append c (x ∷ xs) ys = elim (Bool-cases (x == c)) [
  | inl e ↦ rw (e, split-append c xs ys) refl
  | inr e ↦ rw (e, split-append c xs ys) (cons_first-append x c xs (split c ys))
]

pub take-append : (xs ys : Text) → take (length xs) (xs ++ ys) ≡ xs
take-append [] ys = refl
take-append (x ∷ xs) ys = ap (◌∷◌ x) (take-append xs ys)

pub drop-append : (xs ys : Text) → drop (length xs) (xs ++ ys) ≡ ys
drop-append [] ys = refl
drop-append (x ∷ xs) ys = drop-append xs ys

pub get_to-append : (xs ys : Text) → get_to (length xs) (xs ++ ys) ≡ some xs
unfolding get_to
get_to-append xs ys = ground (arith, length-append xs ys, take-append xs ys)

pub get_from-append : (xs ys : Text) → get_from (length xs) (xs ++ ys) ≡ some ys
unfolding get_from
get_from-append xs ys = ground (arith, length-append xs ys, drop-append xs ys)

-- A text put together from parts, with `c` between them.
abbrev pub joined : (c : ℕ) → Text → List Text → Text
joined c text [] = text
joined c text (part ∷ parts) = text ++ c ∷ joined c part parts

pub split-joined :
    (c : ℕ) (text : Text) (parts : List Text)
    → All (Without c) parts
    → split c (joined c text parts) ≡ split c text ++ parts
split-joined c text [] h = sym (append-nil (split c text))
split-joined c text (part ∷ parts) h =
    split-append c text (joined c part parts)
    ∙ ap (λ ps. split c text ++ ps)
        (split-joined c part parts h.1 ∙ ap (λ ps. ps ++ parts) (split-Without c part h.0))

pub split-parts :
    (c : ℕ) (part : Text) (parts : List Text)
    → All (Without c) (part ∷ parts)
    → split c (joined c part parts) ≡ part ∷ parts
split-parts c part parts h =
    split-joined c part parts h.1 ∙ ap (λ ps. ps ++ parts) (split-Without c part h.0)

pub Without-append : (c : ℕ) (xs ys : Text) → Without c xs → Without c ys → Without c (xs ++ ys)
Without-append c [] ys h k = k
Without-append c (x ∷ xs) ys h k = (h.0, Without-append c xs ys h.1 k)

pub Without-joined :
    (c d : ℕ) (part : Text) (parts : List Text)
    → (d == c) ≡ false
    → All (Without c) (part ∷ parts)
    → Without c (joined d part parts)
Without-joined c d part [] e h = h.0
Without-joined c d part (p ∷ parts) e h =
    Without-append c part (d ∷ joined d p parts) h.0 (e, Without-joined c d p parts e h.1)

pub split_once-append :
    (c : ℕ) (xs ys : Text) → Without c xs → split_once c (xs ++ c ∷ ys) ≡ some (xs, ys)
split_once-append c [] ys h = ground arith
split_once-append c (x ∷ xs) ys h = ground (arith, split_once-append c xs ys h.1, h.0)
