-- ===== src/Lz77/Serial.antt =====
-- src/lz77/serial.rs: tokens to bytes and back.
pub mod RoundTrip
pub mod Total
use nexcomp.Base.{
  ℕ, zero, suc, ◌+◌, ◌-◌, ◌*◌, ◌/◌, ◌^◌, List, [], ◌∷◌, ◌++◌, ◌==◌, ltb, if◌then◌else◌, length,
  get_or, drop, Result, ok, err, stuck,
}
use nexcomp.Base.Words.{Bytes, u8, u16, u32}
use nexcomp.Base.Bits.{bit_and, bit_or}
use nexcomp.Lz77.{Token, literal, match, min_match}

pub data Lz77SerialError : Type 0 where
  truncated_token : ℕ → Lz77SerialError
  invalid_token_type : ℕ → ℕ → Lz77SerialError

-- `(offset << 10) | (length_enc & 0x3FF)` in a `u32`: the shift drops what passes 32 bits.
pack : ℕ → ℕ → ℕ
pack offset length = bit_or (u32 (offset * 2 ^ 10)) (bit_and (length - min_match) 0x3ff)

unfoldable pub serialize_token : Token → Bytes
unfolding pack
serialize_token (literal b) = 0x00 ∷ b ∷ []
serialize_token (match offset length) =
    let packed = pack offset length in
    0x01 ∷ u8 (packed / 2 ^ 24) ∷ u8 (packed / 2 ^ 16) ∷ u8 (packed / 2 ^ 8) ∷ u8 packed ∷ []

unfoldable pub serialize : List Token → Bytes
unfolding serialize_token
serialize [] = []
serialize (token ∷ tokens) = serialize_token token ++ serialize tokens

-- The four bytes behind the flag, big-endian, as a `u32`.
packed_at : Bytes → ℕ
packed_at bytes =
    bit_or
      (bit_or (bit_or (get_or bytes 0 0 * 2 ^ 24) (get_or bytes 1 0 * 2 ^ 16))
        (get_or bytes 2 0 * 2 ^ 8))
      (get_or bytes 3 0)

unpack : ℕ → Token
unpack packed = match (packed / 2 ^ 10) (u16 (bit_and packed 0x3ff + min_match))

-- The loop at `pos`, where `rest` is `data[pos..]`. Each round takes at least two bytes.
deserialize_loop : ℕ → ℕ → Bytes → List Token → Result Lz77SerialError (List Token)
unfolding packed_at unpack
deserialize_loop fuel pos [] tokens = ok tokens
deserialize_loop zero pos (flag ∷ rest) tokens = stuck
deserialize_loop (suc fuel) pos (flag ∷ rest) tokens =
    let as_literal =
      deserialize_loop fuel (pos + 2) (drop 1 rest) (tokens ++ (literal (get_or rest 0 0) ∷ [])) in
    let as_match =
      deserialize_loop fuel (pos + 5) (drop 4 rest) (tokens ++ (unpack (packed_at rest) ∷ [])) in
    if flag == 0x00
    then (if ltb (length rest) 1 then err (truncated_token pos) else as_literal)
    else if flag == 0x01
    then (if ltb (length rest) 4 then err (truncated_token pos) else as_match)
    else err (invalid_token_type flag pos)

pub deserialize : Bytes → Result Lz77SerialError (List Token)
unfolding deserialize_loop
deserialize bytes = deserialize_loop (length bytes) 0 bytes []
