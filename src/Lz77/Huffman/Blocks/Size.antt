-- ===== src/Lz77/Huffman/Blocks/Size.antt =====
-- The size of a stream of blocks.
use nexcomp.Base.{
  ℕ, zero, suc, ◌+◌, ◌*◌, ◌^◌, ◌≤◌, ◌<◌, arith, List, ◌++◌, length, length-append, length-take,
  length-drop, take, drop, All, All-take, All-drop,
}
use nexcomp.Base.Words.{u32, to_le}
use nexcomp.Base.Frames.{word_length}
use nexcomp.Lz77.{Token}
use nexcomp.Lz77.Huffman.Bits.Transfer.{transfer_whole}
use nexcomp.Lz77.Huffman.Tokens.RoundTrip.{IsLegal}
use nexcomp.Lz77.Huffman.Blocks.{block_bits, encode_blocks, block_count, huffman_encode_blocked}
use nexcomp.Lz77.Huffman.Blocks.Written.{transfer_block}
use nexcomp.Lz77.Huffman.Blocks.RoundTrip.{Fits, Fits-le, block_count-Fits}

pub block_bits-size :
    (block : List Token)
    → 0 < length block
    → length block < 2 ^ 28
    → All IsLegal block
    → 8 * length (block_bits block) ≤ 1343 + 78 * length block
unfolding block_bits
block_bits-size block pos few legal =
    let (r, found, size, bytes) =
      transfer_whole _ _ _ block (transfer_block block (omega arith) (omega arith) legal) in
    omega (arith, size)

encode_blocks-size :
    (n size : ℕ) (tokens : List Token)
    → 0 < size
    → Fits n size (length tokens)
    → length tokens < 2 ^ 28
    → All IsLegal tokens
    → length (encode_blocks n size tokens) ≤ 176 * n + 10 * length tokens
unfolding encode_blocks
encode_blocks-size zero size tokens h fits few legal = omega arith
encode_blocks-size (suc n) size tokens h (pos, fits) few legal =
    let block = take size tokens in
    let others = drop size tokens in
    let bits = block_bits block in
    let rest = encode_blocks n size others in
    let first = to_le 4 (u32 (length block)) in
    let second = to_le 4 (u32 (length bits)) in
    let taken = length-take size tokens in
    let dropped = length-drop size tokens in
    omega (
      arith,
      encode_blocks-size n size others h (rw dropped fits) (omega arith)
          (All-drop IsLegal size tokens legal),
      block_bits-size block (omega arith) (omega arith) (All-take IsLegal size tokens legal),
      length-append {0} first (second ++ (bits ++ rest)),
      length-append {0} second (bits ++ rest),
      length-append {0} bits rest,
      word_length (length block),
      word_length (length bits),
    )

pub huffman_encode_blocked-size :
    (tokens : List Token) (size : ℕ)
    → 0 < size
    → length tokens < 2 ^ 28
    → All IsLegal tokens
    → length (huffman_encode_blocked tokens size) ≤ 8 + 186 * length tokens
unfolding huffman_encode_blocked
huffman_encode_blocked-size tokens size h few legal =
    let l = length tokens in
    let n = block_count l size in
    let first = to_le 4 (u32 l) in
    let second = to_le 4 (u32 n) in
    let body = encode_blocks n size tokens in
    let fits = block_count-Fits l size h in
    omega (
      arith,
      Fits-le n size l h fits,
      encode_blocks-size n size tokens h fits few legal,
      length-append {0} first (second ++ body),
      length-append {0} second body,
      word_length l,
      word_length n,
    )
