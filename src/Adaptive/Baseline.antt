-- ===== src/Adaptive/Baseline.antt =====
-- The baseline codec of src/adaptive.rs: `compress_baseline` and `decompress_baseline`.
pub mod Legal
pub mod Declared
pub mod Laws
use nexcomp.Base.{ℕ, Option, none, some, List, ltb, if◌then◌else◌, length, Result, ok, err, stuck}
use nexcomp.Base.Words.{Bytes}
use nexcomp.Lz77.{Token}
use nexcomp.Lz77.Encoder.{encode}
use nexcomp.Lz77.Decoder.{Lz77DecodeError, decode_with_limit}
use nexcomp.Lz77.Huffman.Blocks.{huffman_encode_blocked, huffman_decode_blocked_checked}

-- `if new.len() < best.len() { best = new; }`
abbrev pub shorter : Bytes → Bytes → Bytes
shorter new best = if ltb (length new) (length best) then new else best

unfoldable pub compress_baseline : Bytes → Bytes
compress_baseline bytes =
    let tokens = (encode bytes).0 in
    shorter (huffman_encode_blocked tokens 4096)
      (shorter (huffman_encode_blocked tokens 16384) (huffman_encode_blocked tokens 8192))

-- A failure of either decoder is the error of this codec, which carries its name.
abbrev pub without_error : Result Lz77DecodeError Bytes → Option Bytes
without_error (ok out) = some out
without_error (err e) = none
without_error stuck = none

abbrev pub expanded : Option (List Token) → ℕ → Option Bytes
expanded none expected_len = none
expanded (some tokens) expected_len = without_error (decode_with_limit tokens expected_len)

unfoldable pub decompress_baseline : Bytes → ℕ → Option Bytes
decompress_baseline bytes expected_len =
    expanded (huffman_decode_blocked_checked bytes) expected_len
