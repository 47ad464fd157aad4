-- ===== src/Shard/JsonMessage/Version.antt =====
-- backend/telemetry_shard/src/json_message/node_message.rs: the version strings of old nodes, which
-- end in the target that the node was built for. Subtractions wrap, as in a release build.
pub mod Targets
use substrate_telemetry.Prelude.{
  ℕ, ◌+◌, ◌-◌, Bool, true, ◌&&◌, ◌||◌, Option, none, some, List, [], ◌∷◌, Text, ◌==◌, length,
  and_then, if◌then◌else◌, sub64,
}
use substrate_telemetry.Common.Parse.{is_digit}
use substrate_telemetry.Common.Strings.{split, rsplit, get_to, get_from}

abbrev pub dash : ℕ
dash = 45

abbrev pub dot : ℕ
dot = 46

abbrev pub is_version_or_hash : Text → Bool
is_version_or_hash [] = true
is_version_or_hash (byte ∷ name) =
    (is_digit byte
      || byte == b'.'
      || byte == b'a'
      || byte == b'b'
      || byte == b'c'
      || byte == b'd'
      || byte == b'e'
      || byte == b'f')
    && is_version_or_hash name

-- The version, and the architecture, the system and the environment of the target.
abbrev pub Parts : Type 0
Parts = Text × (Text × (Text × Text))

-- The third part from the end, and the length of the text that follows it.
abbrev pub third_last : List Text → Option (Text × ℕ)
third_last (c ∷ b ∷ a ∷ rest) = some (a, length b + length c + 2)
third_last _ = none

-- How far from the start of the text the target begins, for a part that starts at some place.
abbrev pub target_offset : (item : Text) → (start : ℕ) → ℕ
target_offset item start = if is_version_or_hash item then start + length item + 1 else start

-- `unwrap_or("")` on the part after the first two
abbrev pub first_or_empty : List Text → Text
first_or_empty [] = []
first_or_empty (target_env ∷ rest) = target_env

abbrev pub target_parts : (version : Text) → List Text → Option Parts
target_parts version (target_arch ∷ target_os ∷ rest) =
    some (version, (target_arch, (target_os, first_or_empty rest)))
target_parts version _ = none

-- The two sides of the place at which the target begins.
pub split_at_target : (offset : ℕ) → Text → Option Parts
split_at_target offset text = and_then (get_to (sub64 offset 1) text) (λ version.
    and_then (get_from offset text) (λ target. target_parts version (split dash target)))

pub split_item : Text → Option (Text × ℕ) → Option Parts
unfolding split_at_target
split_item text none = none
split_item text (some (item, after)) =
    split_at_target (target_offset item (length text - after - length item)) text

pub split_old_style_version : Text → Option Parts
unfolding split_item
split_old_style_version text = split_item text (third_last (rsplit dash text))
