-- ===== src/Shard/JsonMessage/Hash/Forms.antt =====
-- backend/telemetry_shard/src/json_message/hash.rs: the forms in which a hash may be written.
use substrate_telemetry.Prelude.{
  ℕ, zero, suc, ◌+◌, ◌*◌, ◌/◌, ◌%◌, ◌<◌, ◌≡◌, refl, sym, ap, subst, ◌∙◌, ◌⊎◌, ◌↔◌, inl, inr, true,
  false, ◌==◌, List, [], ◌∷◌, ◌++◌, map, length, length-append, replicate, set, All, arith,
}
use mathlib.Core.List.{append_assoc, append-nil}
use substrate_telemetry.Shard.JsonMessage.Hash.{
  Hash, Hex, DeError, hash_bytes, write_bytes, read_bytes, into_block_hash, from_block_hash,
  from_ascii, visit_str, visit_bytes, check_end, fill, visit_seq, display,
}

set-append :
    (xs ys : List ℕ) (a b : ℕ) (i : ℕ) → i ≡ length xs → set (xs ++ a ∷ ys) i b ≡ xs ++ b ∷ ys
set-append [] ys a b zero e = refl
set-append [] ys a b (suc i) e = absurd (omega (arith, e))
set-append (x ∷ xs) ys a b zero e = absurd (omega (arith, e))
set-append (x ∷ xs) ys a b (suc i) e = ap (◌∷◌ x) (set-append xs ys a b i (omega (arith, e)))

length-append_one : (i : ℕ) (xs : List ℕ) (b : ℕ) → i ≡ length xs → i + 1 ≡ length (xs ++ b ∷ [])
length-append_one i xs b e = omega (arith, length-append xs (b ∷ []), e)

fill-read :
    {D : Type 0} (i : ℕ) (xs bs : List ℕ)
    → i ≡ length xs
    → ◌≡◌ {A = DeError D ⊎ Hash}
        (fill (length bs) i (map inr bs) (xs ++ replicate (length bs) 0))
        (inr (record { bytes = xs ++ bs }))
unfolding fill
fill-read i xs [] e = refl
fill-read {D} i xs (b ∷ bs) e =
    subst
      (λ buffer.
        ◌≡◌ {A = DeError D ⊎ Hash} (fill (length bs) (i + 1) (map inr bs) buffer)
          (inr (record { bytes = xs ++ b ∷ bs })))
      (append_assoc xs (b ∷ []) (replicate (length bs) 0)
        ∙ sym (set-append xs (replicate (length bs) 0) 0 b i e))
      (subst
        (λ all.
          ◌≡◌ {A = DeError D ⊎ Hash}
            (fill (length bs) (i + 1) (map inr bs) ((xs ++ b ∷ []) ++ replicate (length bs) 0))
            (inr (record { bytes = all })))
        (append_assoc xs (b ∷ []) bs)
        (fill-read (i + 1) (xs ++ b ∷ []) bs (length-append_one i xs b e)))

-- The elements of a sequence, if each was read.
Reads : {D : Type 0} → (k : ℕ) → List (D ⊎ ℕ) → List ℕ → Hash → Type 0
Reads k seq xs hash = (bs : List ℕ) × (seq ≡ map inr bs) × (length bs ≡ k) × (hash.bytes ≡ xs ++ bs)

fill-Reads :
    {D : Type 0} (k i : ℕ) (seq : List (D ⊎ ℕ)) (xs : List ℕ) (hash : Hash)
    → i ≡ length xs
    → fill k i seq (xs ++ replicate k 0) ≡ inr hash
    → Reads k seq xs hash
unfolding fill check_end Reads
fill-Reads zero i [] xs hash l e = ([], refl, refl, sym (ground (arith, e)))
fill-Reads zero i (inl d ∷ seq) xs hash l e = ground (arith, e)
fill-Reads zero i (inr b ∷ seq) xs hash l e = ground (arith, e)
fill-Reads (suc k) i [] xs hash l e = ground (arith, e)
fill-Reads (suc k) i (inl d ∷ seq) xs hash l e = ground (arith, e)
fill-Reads (suc k) i (inr b ∷ seq) xs hash l e =
    let (bs, p, q, r) = fill-Reads k (i + 1) seq (xs ++ b ∷ []) hash (length-append_one i xs b l) (
      ap (fill k (i + 1) seq)
        (append_assoc xs (b ∷ []) (replicate k 0) ∙ sym (set-append xs (replicate k 0) 0 b i l))
      ∙ e) in
    (b ∷ bs, ap (◌∷◌ (inr b)) p, ap suc q, r ∙ append_assoc xs (b ∷ []) bs)

-- A sequence of numbers is read as a hash exactly when each element is read as a byte and there are
-- 32 of them; the hash is then made of these bytes, in their order.
pub visit_seq-Reads :
    {D : Type 0} (seq : List (D ⊎ ℕ)) (hash : Hash)
    → (visit_seq seq ≡ inr hash) ↔ ((seq ≡ map inr hash.bytes) × (length hash.bytes ≡ hash_bytes))
unfolding visit_seq Reads
visit_seq-Reads {D} seq hash = (
  λ e.
      let (bs, p, q, r) = fill-Reads hash_bytes 0 seq [] hash refl e in
      (p ∙ ap (map inr) (sym r), ap length r ∙ q),
  λ (p, q).
      ap visit_seq p
      ∙ subst
          (λ k.
            ◌≡◌ {A = DeError D ⊎ Hash} (fill k 0 (map inr hash.bytes) (replicate k 0)) (inr hash))
          q (fill-read 0 [] hash.bytes refl),
)

from_ascii-display :
    {E : Type 0} (hex : Hex E) (hash : Hash)
    → hex.decode_to_slice hash_bytes (hex.encode hash.bytes) ≡ inr hash.bytes
    → from_ascii hex (display hex hash) ≡ inr hash
unfolding from_ascii display
from_ascii-display hex hash e = rw e refl

-- A hash of 32 bytes is read back from its display, given as a string or as bytes, and from its own
-- bytes, where hex writes two digits for each byte and decodes what it wrote for this hash.
pub visit-display :
    {E D : Type 0} (hex : Hex E) (hash : Hash)
    → length hash.bytes ≡ hash_bytes
    → length (hex.encode hash.bytes) ≡ 2 * length hash.bytes
    → hex.decode_to_slice hash_bytes (hex.encode hash.bytes) ≡ inr hash.bytes
    → ◌≡◌ {A = DeError D ⊎ Hash} (visit_str hex (display hex hash)) (inr hash)
      × (◌≡◌ {A = DeError D ⊎ Hash} (visit_bytes hex (display hex hash)) (inr hash)
          × ◌≡◌ {A = DeError D ⊎ Hash} (visit_bytes hex hash.bytes) (inr hash))
unfolding visit_str visit_bytes display
visit-display {E} {D} hex hash l two e =
    let read = from_ascii-display hex hash e in
    let not_raw : (length (display hex hash) == hash_bytes) ≡ false = ground (arith, l, two) in
    let raw : (length hash.bytes == hash_bytes) ≡ true = ground (arith, l) in
    (rw read refl, (rw (not_raw, read) refl, rw raw refl))

div_eq : (b n : ℕ) → b < 256 → (n * 256 + b) / 256 ≡ n
div_eq b n h = omega (arith, h)

mod_eq : (b n : ℕ) → b < 256 → (n * 256 + b) % 256 ≡ b
mod_eq b n h = omega (arith, h)

digit :
    (b k n : ℕ) (rest : List ℕ)
    → b < 256
    → read_bytes (suc k) (n * 256 + b) rest ≡ read_bytes k n (b ∷ rest)
unfolding read_bytes
digit b k n rest h = rw (div_eq b n h, mod_eq b n h) refl

read-write :
    (bs : List ℕ) (m k n : ℕ) (rest : List ℕ)
    → m ≡ length bs + k
    → All (λ b. b < 256) bs
    → read_bytes m (write_bytes n bs) rest ≡ read_bytes k n (bs ++ rest)
read-write [] m k n rest e h = ap (λ i. read_bytes i n rest) (omega (arith, e))
read-write (b ∷ bs) m k n rest e h =
    read-write bs m (suc k) (n * 256 + b) rest (omega (arith, e)) h.1 ∙ digit b k n (bs ++ rest) h.0

-- A hash of 32 bytes is the same after it was turned into the hash that the core uses, and back.
pub from_block_hash-into :
    (hash : Hash)
    → length hash.bytes ≡ hash_bytes
    → All (λ b. b < 256) hash.bytes
    → from_block_hash (into_block_hash hash) ≡ hash
unfolding from_block_hash into_block_hash read_bytes
from_block_hash-into hash l h =
    ap (λ bytes. record { bytes = bytes })
      (read-write hash.bytes hash_bytes 0 0 [] (omega (arith, l)) h ∙ append-nil hash.bytes)
