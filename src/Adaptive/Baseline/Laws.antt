-- ===== src/Adaptive/Baseline/Laws.antt =====
-- The payloads of the baseline codec, against what the container needs of them.
use nexcomp.Base.{ℕ, ◌^◌, ◌≤◌, ◌<◌, ◌≡◌, refl, arith, Bool-cases, inl, inr, some, length, ltb, ok}
use nexcomp.Base.Words.{Bytes, IsBytes}
use nexcomp.Lz77.Encoder.{encode}
use nexcomp.Lz77.Encoder.RoundTrip.{decode-encode}
use nexcomp.Lz77.Huffman.Blocks.{huffman_encode_blocked}
use nexcomp.Lz77.Huffman.Blocks.RoundTrip.{huffman_decode_blocked_checked-huffman_encode_blocked}
use nexcomp.Lz77.Huffman.Blocks.Size.{huffman_encode_blocked-size}
use nexcomp.Adaptive.{lz77_huffman, block_size}
use nexcomp.Adaptive.Lengths.{check_declared_lengths}
use nexcomp.Adaptive.Baseline.{shorter, compress_baseline, decompress_baseline}
use nexcomp.Adaptive.Baseline.Legal.{encode-IsLegal}
use nexcomp.Adaptive.Baseline.Declared.{huffman_encode_blocked-declared}

-- What is asked of a payload for a block.
pub record IsPayload (bytes out : Bytes) : Type 0 where
  pub fits : length out < 2 ^ 32
  pub declares : check_declared_lengths lz77_huffman out (length bytes) ≡ ok tt
  pub decodes : decompress_baseline out (length bytes) ≡ some bytes

stream-IsPayload :
    (bytes : Bytes) (size : ℕ)
    → 0 < size
    → IsBytes bytes
    → length bytes ≤ block_size
    → IsPayload bytes (huffman_encode_blocked (encode bytes).0 size)
unfolding decompress_baseline
stream-IsPayload bytes size h b short =
    let tokens = (encode bytes).0 in
    let (legal, few) = encode-IsLegal bytes b in
    let found =
      huffman_decode_blocked_checked-huffman_encode_blocked tokens size h (omega arith) legal in
    record {
      fits = omega (arith, huffman_encode_blocked-size tokens size h (omega arith) legal);
      declares =
          huffman_encode_blocked-declared tokens size (length bytes) h (omega arith) few legal;
      decodes = rw (found, decode-encode bytes (length bytes) (omega arith)) refl;
    }

shorter-IsPayload :
    (bytes new best : Bytes)
    → IsPayload bytes new
    → IsPayload bytes best
    → IsPayload bytes (shorter new best)
shorter-IsPayload bytes new best h k = elim (Bool-cases (ltb (length new) (length best))) [
  | inl t ↦ rw t h
  | inr t ↦ rw t k
]

-- For bytes of at most one block, the baseline writes a payload whose length fits 32 bits, that
-- declares lengths which agree with the block, and that is decompressed to the bytes.
pub compress_baseline-IsPayload :
    (bytes : Bytes)
    → IsBytes bytes
    → length bytes ≤ block_size
    → IsPayload bytes (compress_baseline bytes)
unfolding compress_baseline
compress_baseline-IsPayload bytes b short =
    let tokens = (encode bytes).0 in
    let four = huffman_encode_blocked tokens 4096 in
    let eight = huffman_encode_blocked tokens 8192 in
    let sixteen = huffman_encode_blocked tokens 16384 in
    shorter-IsPayload bytes four (shorter sixteen eight)
      (stream-IsPayload bytes 4096 (omega arith) b short)
      (shorter-IsPayload bytes sixteen eight (stream-IsPayload bytes 16384 (omega arith) b short)
        (stream-IsPayload bytes 8192 (omega arith) b short))
