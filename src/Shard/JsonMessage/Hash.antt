-- ===== src/Shard/JsonMessage/Hash.antt =====
-- backend/telemetry_shard/src/json_message/hash.rs. The crate hex is a record of its two operations, and
-- the errors of that crate and of a deserializer are any types. Texts are their bytes.

pub mod Forms
pub mod Examples
use substrate_telemetry.Prelude.{
  ℕ, zero, suc, ◌+◌, ◌*◌, ◌/◌, ◌%◌, Bool, false, ◌&&◌, ◌⊎◌, inl, inr, List, [], ◌∷◌, ◌++◌, Text,
  ◌==◌, length, drop, replicate, set, if◌then◌else◌,
}
use substrate_telemetry.Common.NodeTypes.{BlockHash}

pub record Hash : Type 0 where
  pub bytes : List ℕ

abbrev pub hash_bytes : ℕ
hash_bytes = 32

-- What hash.rs uses of the crate hex: `decode_to_slice` into a slice of some length, which may
-- fail, and `encode_to_slice` into a slice that fits.
pub record Hex (E : Type 0) : Type 0 where
  pub decode_to_slice : ℕ → Text → E ⊎ List ℕ
  pub encode : List ℕ → Text

-- The number that some bytes write after `n`, the first byte being the highest.
abbrev pub write_bytes : ℕ → List ℕ → ℕ
write_bytes n [] = n
write_bytes n (b ∷ bs) = write_bytes (n * 256 + b) bs

-- The last `k` bytes of a number, in front of others.
pub read_bytes : (k : ℕ) → ℕ → List ℕ → List ℕ
read_bytes zero n bs = bs
read_bytes (suc k) n bs = read_bytes k (n / 256) (n % 256 ∷ bs)

-- `BlockHash::from(hash)`
unfoldable pub into_block_hash : Hash → BlockHash
into_block_hash hash = write_bytes 0 hash.bytes

-- `Hash::from(block_hash)`
unfoldable pub from_block_hash : BlockHash → Hash
unfolding read_bytes
from_block_hash hash = record { bytes = read_bytes hash_bytes hash [] }

pub data HashParseError (E : Type 0) : Type 0 where
  hex_error : E → HashParseError E
  invalid_prefix : HashParseError E

-- What a deserializer reports: an unexpected value, a wrong length, or an error of its own.
pub data DeError (D : Type 0) : Type 0 where
  invalid_value : Text → DeError D
  invalid_length : ℕ → DeError D
  deserializer : D → DeError D

abbrev pub prefix : Text
prefix = b'0' ∷ b'x' ∷ []

abbrev pub starts_with_prefix : Text → Bool
starts_with_prefix (a ∷ b ∷ value) = (a == b'0') && (b == b'x')
starts_with_prefix _ = false

-- What was decoded, as a hash.
abbrev pub decoded : {E : Type 0} → E ⊎ List ℕ → HashParseError E ⊎ Hash
decoded (inl e) = inl (hex_error e)
decoded (inr bytes) = inr (record { bytes = bytes })

pub from_ascii : {E : Type 0} → Hex E → Text → HashParseError E ⊎ Hash
from_ascii hex value =
    if starts_with_prefix value
    then decoded (hex.decode_to_slice hash_bytes (drop 2 value))
    else inl invalid_prefix

-- `map_err(|_| invalid_value(value))`
abbrev pub or_invalid : {E D : Type 0} → Text → HashParseError E ⊎ Hash → DeError D ⊎ Hash
or_invalid value (inl e) = inl (invalid_value value)
or_invalid value (inr hash) = inr hash

pub visit_str : {E D : Type 0} → Hex E → Text → DeError D ⊎ Hash
unfolding from_ascii
visit_str hex value = or_invalid value (from_ascii hex value)

pub visit_bytes : {E D : Type 0} → Hex E → List ℕ → DeError D ⊎ Hash
unfolding from_ascii
visit_bytes hex value =
    if length value == hash_bytes
    then inr (record { bytes = value })
    else or_invalid value (from_ascii hex value)

-- The element after the last one that fits; the sequence is what is left of it.
pub check_end : {D : Type 0} → List (D ⊎ ℕ) → List ℕ → DeError D ⊎ Hash
check_end [] bytes = inr (record { bytes = bytes })
check_end (inl e ∷ seq) bytes = inl (deserializer e)
check_end (inr b ∷ seq) bytes = inl (invalid_length 33)

-- The loop from the byte `i` on, with `k` bytes to go: each element is read, or its reading fails.
pub fill : {D : Type 0} → (k i : ℕ) → List (D ⊎ ℕ) → List ℕ → DeError D ⊎ Hash
unfolding check_end
fill zero i seq bytes = check_end seq bytes
fill (suc k) i [] bytes = inl (invalid_length i)
fill (suc k) i (inl e ∷ seq) bytes = inl (deserializer e)
fill (suc k) i (inr b ∷ seq) bytes = fill k (i + 1) seq (set bytes i b)

pub visit_seq : {D : Type 0} → List (D ⊎ ℕ) → DeError D ⊎ Hash
unfolding fill
visit_seq seq = fill hash_bytes 0 seq (replicate hash_bytes 0)

-- `Display::fmt`
pub display : {E : Type 0} → Hex E → Hash → Text
display hex hash = prefix ++ hex.encode hash.bytes
