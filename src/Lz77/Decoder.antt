-- ===== src/Lz77/Decoder.antt =====
-- src/lz77/decoder.rs: tokens to the bytes that they stand for.
pub mod Bounds
use nexcomp.Base.{
  ℕ, zero, suc, ◌+◌, ◌-◌, ◌^◌, min, List, [], ◌∷◌, ◌++◌, ◌||◌, ◌==◌, ltb, leb, if◌then◌else◌,
  length, get_or, Result, ok, err,
}
use nexcomp.Base.Words.{Bytes}
use nexcomp.Lz77.{Token, literal, match}

pub data Lz77DecodeError : Type 0 where
  invalid_match : ℕ → ℕ → Lz77DecodeError
  output_too_large : ℕ → Lz77DecodeError

-- `usize::MAX` on a 64-bit target.
abbrev pub usize_max : ℕ
usize_max = 2 ^ 64 - 1

abbrev pub saturating_add : ℕ → ℕ → ℕ
saturating_add a b = min (a + b) usize_max

-- The copy loop: `left` more bytes, the next one read at `from`, each appended at once.
unfoldable pub copy : ℕ → ℕ → Bytes → Bytes
copy zero from output = output
copy (suc left) from output = copy left (from + 1) (output ++ (get_or output from 0 ∷ []))

-- One token. Reads are in range: the copy starts inside the output, which grows with each read.
unfoldable pub decode_token : ℕ → Token → Bytes → Result Lz77DecodeError Bytes
unfolding copy
decode_token limit (literal b) output =
    if leb limit (length output) then err (output_too_large limit) else ok (output ++ (b ∷ []))
decode_token limit (match offset len) output =
    if ltb limit (saturating_add (length output) len)
    then err (output_too_large limit)
    else if ltb (length output) offset || offset == 0
    then err (invalid_match offset (length output))
    else ok (copy len (length output - offset) output)

unfoldable pub decode_loop : ℕ → List Token → Bytes → Result Lz77DecodeError Bytes
decode_loop limit [] output = ok output
decode_loop limit (token ∷ tokens) output = elim (decode_token limit token output) [
  | ok output' ↦ decode_loop limit tokens output'
  | err e ↦ err e
  | Result.stuck ↦ Result.stuck
]

unfoldable pub decode_with_limit : List Token → ℕ → Result Lz77DecodeError Bytes
unfolding decode_token decode_loop
decode_with_limit tokens limit = decode_loop limit tokens []

unfoldable pub decode : List Token → Result Lz77DecodeError Bytes
unfolding decode_with_limit
decode tokens = decode_with_limit tokens usize_max
