-- ===== src/Codecs/Rle.antt =====
-- The run-length codec of src/codecs/mod.rs, and its classification of a block.
pub mod RoundTrip
use Prim.Native.String.{String}
use nexcomp.Base.{
  ℕ, zero, suc, ◌+◌, ◌-◌, ◌*◌, ◌/◌, ◌^◌, ◌≤◌, Bool, true, false, List, [], ◌∷◌, ◌++◌, ◌==◌, ltb,
  if◌then◌else◌, length, drop, replicate, Result, ok, err, stuck, ◌>>=◌,
}
use nexcomp.Base.Words.{Bytes, u8}
use nexcomp.Base.Bits.{bit_and, bit_or}
use nexcomp.Codecs.Bcj.{Floats}

pub data CodecError : Type 0 where
  unexpected_eof invalid_varint : CodecError
  decompress_failed : String → CodecError

abbrev pub zero_run : CodecError
zero_run = decompress_failed "RLE run count of zero"

-- One to three bytes of seven bits; the last byte holds what is left, cut to a byte.
unfoldable pub varint_encode : ℕ → Bytes
varint_encode count =
    if ltb count 128
    then u8 count ∷ []
    else if ltb count 16384
    then bit_or 0x80 (bit_and count 0x7f) ∷ u8 (count / 2 ^ 7) ∷ []
    else bit_or 0x80 (bit_and count 0x7f)
      ∷ bit_or 0x80 (bit_and (count / 2 ^ 7) 0x7f)
      ∷ u8 (count / 2 ^ 14)
      ∷ []

-- The value and the number of bytes consumed, at the front of `data[pos..]`.
pub varint_decode : Bytes → Result CodecError (ℕ × ℕ)
varint_decode [] = err unexpected_eof
varint_decode (b0 ∷ []) = if bit_and b0 0x80 == 0 then ok (b0, 1) else err unexpected_eof
varint_decode (b0 ∷ b1 ∷ []) =
    if bit_and b0 0x80 == 0
    then ok (b0, 1)
    else if bit_and b1 0x80 == 0
    then ok (bit_or (bit_and b0 0x7f) (b1 * 2 ^ 7), 2)
    else err unexpected_eof
varint_decode (b0 ∷ b1 ∷ b2 ∷ rest) =
    if bit_and b0 0x80 == 0
    then ok (b0, 1)
    else if bit_and b1 0x80 == 0
    then ok (bit_or (bit_and b0 0x7f) (b1 * 2 ^ 7), 2)
    else ok (bit_or (bit_or (bit_and b0 0x7f) (bit_and b1 0x7f * 2 ^ 7)) (b2 * 2 ^ 14), 3)

-- How many bytes at the front are `val`.
unfoldable pub run_length : ℕ → Bytes → ℕ
run_length val [] = 0
run_length val (b ∷ bytes) = let more = run_length val bytes in if b == val then suc more else 0

-- Pairs of a byte and the length of its run. A run has at least one byte, so the length of the data
-- is enough fuel.
rle_encode_loop : ℕ → Bytes → Bytes
rle_encode_loop fuel [] = []
rle_encode_loop zero (val ∷ bytes) = []
rle_encode_loop (suc fuel) (val ∷ bytes) =
    let more = run_length val bytes in
    val ∷ (varint_encode (1 + more) ++ rle_encode_loop fuel (drop more bytes))

unfoldable pub rle_encode : Bytes → Bytes
unfolding rle_encode_loop
rle_encode bytes = rle_encode_loop (length bytes) bytes

-- What follows a decoded count.
rle_decode_run :
    (Bytes → Bytes → Result CodecError Bytes) → ℕ → Bytes → Bytes → ℕ × ℕ → Result CodecError Bytes
rle_decode_run continue val rest out (zero, consumed) = err zero_run
rle_decode_run continue val rest out (suc count, consumed) =
    continue (drop consumed rest) (out ++ replicate (suc count) val)

rle_decode_loop : ℕ → Bytes → Bytes → Result CodecError Bytes
unfolding rle_decode_run
rle_decode_loop fuel [] out = ok out
rle_decode_loop zero (val ∷ rest) out = stuck
rle_decode_loop (suc fuel) (val ∷ rest) out =
    varint_decode rest >>= rle_decode_run (rle_decode_loop fuel) val rest out

pub rle_decode : Bytes → Result CodecError Bytes
unfolding rle_decode_loop
rle_decode bytes = rle_decode_loop (length bytes) bytes []
