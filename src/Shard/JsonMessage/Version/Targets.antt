-- ===== src/Shard/JsonMessage/Version/Targets.antt =====
-- backend/telemetry_shard/src/json_message/node_message.rs: old versions are split into what they
-- were put together from.
use substrate_telemetry.Prelude.{
  ℕ, ◌+◌, ◌-◌, ◌≤◌, ◌⊎◌, ◌↔◌, inl, inr, Bool-cases, ◌≡◌, refl, sym, ap, subst, ◌∙◌, true, false,
  some, List, [], ◌∷◌, ◌++◌, Text, length, arith, sub64, sub64_small, length-append, All,
}
use mathlib.Core.List.{append_assoc, reverse, reverse-append}
use substrate_telemetry.Common.Strings.{split, rsplit, get_to, get_from}
use substrate_telemetry.Common.Strings.Splitting.{
  Without, joined, split-joined, split-parts, get_to-append, get_from-append,
}
use substrate_telemetry.Shard.JsonMessage.Version.{
  dash, dot, is_version_or_hash, Parts, third_last, target_offset, target_parts, split_at_target,
  split_item, split_old_style_version,
}

split_at-joined :
    (version target : Text)
    → split_at_target (length version + 1) (version ++ dash ∷ target)
      ≡ target_parts version (split dash target)
unfolding split_at_target
split_at-joined version target =
    let text = version ++ dash ∷ target in
    let before : get_to (sub64 (length version + 1) 1) text ≡ some version =
      ap (λ k. get_to k text) (sub64_small (length version + 1) 1 (omega arith) ∙ omega arith)
      ∙ get_to-append version (dash ∷ target) in
    let after : get_from (length version + 1) text ≡ some target =
      ap (λ k. get_from k text) (omega (arith, length-append version (dash ∷ [])))
      ∙ ap (get_from (length (version ++ dash ∷ [])))
          (sym (append_assoc version (dash ∷ []) target))
      ∙ get_from-append (version ++ dash ∷ []) target in
    rw (before, after) refl

-- A decimal digit, a dot, or one of the letters from a to f.
abbrev pub IsVersionByte : ℕ → Type 0
IsVersionByte b = ((48 ≤ b) × (b ≤ 57)) ⊎ (b ≡ 46) ⊎ ((97 ≤ b) × (b ≤ 102))

-- It looks like the end of a version, or like a hash.
abbrev pub LikesVersion : Text → Type 0
LikesVersion text = All IsVersionByte text

is_version_or_hash-LikesVersion :
    (text : Text) → (is_version_or_hash text ≡ true) ↔ LikesVersion text
is_version_or_hash-LikesVersion [] = ((λ _. tt), λ _. refl)
is_version_or_hash-LikesVersion (b ∷ text) =
    let rest = is_version_or_hash-LikesVersion text in
    (
      (λ e. (ground (arith, e), rest.0 (ground (arith, e)))),
      λ h. let others = rest.1 h.1 in ground (arith, others, h.0),
    )

other_name : (text : Text) → ¬ LikesVersion text → is_version_or_hash text ≡ false
other_name text h = elim (Bool-cases (is_version_or_hash text)) [
  | inl e ↦ absurd (h ((is_version_or_hash-LikesVersion text).0 e))
  | inr e ↦ e
]

-- How an old version is written, with the version, architecture, system and environment that it
-- gives. What stands before an architecture that has no environment behind it ends in a part that
-- looks like a version; an architecture with an environment does not, and has no dot.
pub data Written : Text → Parts → Type 0 where
  with_env :
      (version target_arch target_os target_env : Text)
      → All (Without dash) (target_arch ∷ target_os ∷ target_env ∷ [])
      → ¬ LikesVersion target_arch
      → Without dot target_arch
      → Written
          (joined dash version (target_arch ∷ target_os ∷ target_env ∷ []))
          (version, (target_arch, (target_os, target_env)))
  without_env :
      (version hash target_arch target_os : Text)
      → All (Without dash) (hash ∷ target_arch ∷ target_os ∷ [])
      → LikesVersion hash
      → Written
          (joined dash version (hash ∷ target_arch ∷ target_os ∷ []))
          (version ++ dash ∷ hash, (target_arch, (target_os, [])))
  only_version :
      (version target_arch target_os : Text)
      → All (Without dash) (version ∷ target_arch ∷ target_os ∷ [])
      → LikesVersion version
      → Written
          (joined dash version (target_arch ∷ target_os ∷ []))
          (version, (target_arch, (target_os, [])))

third_last-joined :
    (text a b c : Text)
    → All (Without dash) (a ∷ b ∷ c ∷ [])
    → third_last (rsplit dash (joined dash text (a ∷ b ∷ c ∷ [])))
      ≡ some (a, length b + length c + 2)
third_last-joined text a b c h =
    rw
      (split-joined dash text (a ∷ b ∷ c ∷ []) h, reverse-append (split dash text) (a ∷ b ∷ c ∷ []))
      refl

-- The text is split where its third part from the end says.
split-third_last :
    (version item : Text) (after : ℕ) (part : Text) (parts : List Text)
    → All (Without dash) (part ∷ parts)
    → let text = version ++ dash ∷ joined dash part parts in
      third_last (rsplit dash text) ≡ some (item, after)
      → target_offset item (length text - after - length item) ≡ length version + 1
      → split_old_style_version text ≡ target_parts version (part ∷ parts)
unfolding split_old_style_version split_item
split-third_last version item after part parts h third offset =
    let text = version ++ dash ∷ joined dash part parts in
    ap (split_item text) third
    ∙ ap (λ k. split_at_target k text) offset
    ∙ split_at-joined version (joined dash part parts)
    ∙ ap (target_parts version) (split-parts dash part parts h)

hash_or_version :
    (item : Text) (start : ℕ)
    → is_version_or_hash item ≡ true
    → target_offset item start ≡ start + length item + 1
hash_or_version item start e = rw e refl

other_item :
    (item : Text) (start : ℕ) → is_version_or_hash item ≡ false → target_offset item start ≡ start
other_item item start e = rw e refl

length-dashed : (xs ys : Text) → length (xs ++ dash ∷ ys) ≡ length xs + 1 + length ys
length-dashed xs ys = omega (arith, length-append xs (dash ∷ ys))

pub split_old_style_version-Written :
    (text : Text) (parts : Parts) → Written text parts → split_old_style_version text ≡ some parts
split_old_style_version-Written _ _ (with_env v a o e h n d) =
    split-third_last v a (length o + length e + 2) a (o ∷ e ∷ []) h (third_last-joined v a o e h) (
      other_item a _ (other_name a n)
      ∙ omega (
        arith,
        length-dashed v (joined dash a (o ∷ e ∷ [])),
        length-dashed a (joined dash o (e ∷ [])),
        length-dashed o e,
      ))
split_old_style_version-Written _ _ (without_env v w a o h y) =
    let whole = append_assoc v (dash ∷ w) (dash ∷ joined dash a (o ∷ [])) in
    subst (λ text. split_old_style_version text ≡ some (v ++ dash ∷ w, (a, (o, [])))) whole
      (split-third_last (v ++ dash ∷ w) w (length a + length o + 2) a (o ∷ []) h.1
        (ap (λ text. third_last (rsplit dash text)) whole ∙ third_last-joined v w a o h)
        (hash_or_version w _ ((is_version_or_hash-LikesVersion w).1 y)
          ∙ omega (
            arith,
            length-dashed (v ++ dash ∷ w) (joined dash a (o ∷ [])),
            length-dashed v w,
            length-dashed a o,
          )))
split_old_style_version-Written _ _ (only_version v a o h y) =
    split-third_last v v (length a + length o + 2) a (o ∷ []) h.1
      (ap (λ ps. third_last (reverse ps)) (split-parts dash v (a ∷ o ∷ []) h))
      (hash_or_version v _ ((is_version_or_hash-LikesVersion v).1 y)
        ∙ omega (arith, length-dashed v (joined dash a (o ∷ [])), length-dashed a o))
