-- ===== src/Shard/JsonMessage/Hash/Examples.antt =====
-- backend/telemetry_shard/src/json_message/hash.rs, on concrete input: the hash deadbeef00…00, with
-- hexadecimal digits in lower case. An odd length is the only error of this decoder.
use substrate_telemetry.Prelude.{
  ℕ, ◌+◌, ◌*◌, ◌-◌, ◌/◌, ◌%◌, ◌≡◌, refl, ◌⊎◌, inl, inr, ◌↔◌, List, [], ◌∷◌, map, Text, ltb,
  if◌then◌else◌, length, replicate,
}
use substrate_telemetry.Shard.JsonMessage.Hash.{
  Hash, Hex, DeError, hash_bytes, visit_str, visit_bytes, visit_seq, display,
}
use substrate_telemetry.Shard.JsonMessage.Hash.Forms.{visit_seq-Reads, visit-display}

abbrev pub dummy : Hash
dummy = record { bytes = 222 ∷ 173 ∷ 190 ∷ 239 ∷ replicate 28 0 }

abbrev digit : ℕ → ℕ
digit n = if ltb n 10 then b'0' + n else 87 + n

abbrev value : ℕ → ℕ
value c = if ltb c 58 then c - b'0' else c - 87

abbrev encode : List ℕ → Text
encode [] = []
encode (b ∷ bs) = digit (b / 16) ∷ digit (b % 16) ∷ encode bs

abbrev put_first : ℕ → ℕ ⊎ List ℕ → ℕ ⊎ List ℕ
put_first b (inl e) = inl e
put_first b (inr bs) = inr (b ∷ bs)

abbrev decode : Text → ℕ ⊎ List ℕ
decode [] = inr []
decode (a ∷ []) = inl 1
decode (a ∷ b ∷ cs) = put_first (value a * 16 + value b) (decode cs)

abbrev lower_case : Hex ℕ
lower_case = record { decode_to_slice = λ n text. decode text; encode = encode }

visit-display_example :
    ◌≡◌ {A = DeError ℕ ⊎ Hash} (visit_str lower_case (display lower_case dummy)) (inr dummy)
    × (◌≡◌ {A = DeError ℕ ⊎ Hash} (visit_bytes lower_case (display lower_case dummy)) (inr dummy)
        × ◌≡◌ {A = DeError ℕ ⊎ Hash} (visit_bytes lower_case dummy.bytes) (inr dummy))
visit-display_example = visit-display lower_case dummy refl refl refl

visit_seq-Reads_example : (visit_seq {D = ℕ} (map inr dummy.bytes) ≡ inr dummy) ↔ (
    (◌≡◌ {A = List (ℕ ⊎ ℕ)} (map inr dummy.bytes) (map inr dummy.bytes))
    × (length dummy.bytes ≡ hash_bytes))
visit_seq-Reads_example = visit_seq-Reads {D = ℕ} (map inr dummy.bytes) dummy
