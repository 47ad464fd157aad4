-- ===== src/Shard/RealIp/Examples.antt =====
-- backend/telemetry_shard/src/real_ip.rs, on concrete input: the header
-- by=a;For="[::1]:4";host=e, for=b
use substrate_telemetry.Prelude.{◌≡◌, refl, some, List, [], ◌∷◌, map, Text, ok, arith}
use substrate_telemetry.Common.Strings.{trim}
use substrate_telemetry.Common.Strings.Splitting.{joined}
use substrate_telemetry.Shard.RealIp.{comma, semicolon, get_first_addr_from_forwarded_header}
use substrate_telemetry.Shard.RealIp.Headers.{
  Value, token, quoted, write_pair, get_first_addr-Written,
}

abbrev address : Text
address = 91 ∷ 58 ∷ 58 ∷ b'1' ∷ 93 ∷ 58 ∷ b'4' ∷ []

abbrev by_a : Text × Value
by_a = (b'b' ∷ b'y' ∷ [], token (b'a' ∷ []))

abbrev for_address : Text × Value
for_address = (b'F' ∷ b'o' ∷ b'r' ∷ [], quoted address)

abbrev host_e : Text × Value
host_e = (b'h' ∷ b'o' ∷ b's' ∷ b't' ∷ [], token (b'e' ∷ []))

abbrev appended : List Text
appended = (32 ∷ b'f' ∷ b'o' ∷ b'r' ∷ 61 ∷ b'b' ∷ []) ∷ []

get_first_addr-Written_example :
    get_first_addr_from_forwarded_header (
      joined comma
        (joined semicolon (write_pair by_a) (map write_pair (for_address ∷ host_e ∷ [])))
        appended)
    ≡ ok (some address)
unfolding trim
get_first_addr-Written_example = get_first_addr-Written by_a (for_address ∷ host_e ∷ []) appended (
  record {
    key = ground arith;
    no_semicolon = ground arith;
    no_comma = ground arith;
    trimmed = refl;
    value = refl;
  },
  (
    record {
      key = ground arith;
      no_semicolon = ground arith;
      no_comma = ground arith;
      trimmed = refl;
      value = tt;
    },
    (
      record {
        key = ground arith;
        no_semicolon = ground arith;
        no_comma = ground arith;
        trimmed = refl;
        value = refl;
      },
      tt,
    ),
  ),
)
