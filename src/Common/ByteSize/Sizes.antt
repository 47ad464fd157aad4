-- ===== src/Common/ByteSize/Sizes.antt =====
-- backend/common/src/byte_size.rs: a number of bytes is read as it is written.
use substrate_telemetry.Prelude.{Bool, true, false, ◌&&◌, [], ◌∷◌, Text, text_key, if◌then◌else◌}
use substrate_telemetry.Prelude.HashMap
use substrate_telemetry.Prelude.HashMap.{HashMap}
use mathlib.Core.List.{reverse}
use substrate_telemetry.Common.Parse.{is_digit}
use substrate_telemetry.Common.Strings.Trimming.{begins_visible}

-- Neither end is white space, and no digit stands in front.
is_suffix : Text → Bool
is_suffix [] = false
is_suffix (b ∷ bs) =
    begins_visible (b ∷ bs)
    && (begins_visible (reverse (b ∷ bs)) && (if is_digit b then false else true))
