-- ===== src/Adaptive/Lengths.antt =====
-- `check_declared_lengths` of src/adaptive.rs: every length that a payload declares, against the
-- block's length, before the codec runs.
pub mod Framed
pub mod Sizes
pub mod Lanes
pub mod DeltaAns
use nexcomp.Base.{
  ℕ, zero, suc, ◌+◌, ◌-◌, ◌/◌, Bool, true, false, ◌&&◌, Option, none, some, ◌==◌, ltb, leb,
  if◌then◌else◌, length, get_elem?, Result, ok, err, ◌>>=◌, ◌>>◌, fail_if, ok_or,
}
use nexcomp.Base.Words.{Bytes}
use nexcomp.Lz77.Decoder.{saturating_add}
use nexcomp.Adaptive.{
  CodecId, lz77_huffman, lzma_style, delta_ans, rle_huffman, passthrough, bwt_rans, ppm, stride_cm,
  name, AdaptiveError, truncated, length_mismatch,
}
use nexcomp.Adaptive.Reader.{u32_at}

-- `data.get(9) != Some(&1)`.
abbrev is_not_one : Option ℕ → Bool
is_not_one none = true
is_not_one (some m) = if m == 1 then false else true

rle_lengths : Bytes → ℕ → Result AdaptiveError Bool
rle_lengths bytes expected = do
  declared ← u32_at bytes 5
  if declared == expected
      then (if is_not_one (get_elem? bytes 9)
          then ok true
          else do runs ← u32_at bytes 10; ok (leb runs expected))
      else ok false

-- One lane: lane `l` holds every `lanes`-th byte from `l` on. The fuel is the number of lanes left.
pub delta_lanes : ℕ → Bytes → ℕ → ℕ → ℕ → ℕ → Bool → Result AdaptiveError Bool
delta_lanes zero bytes expected lanes lane pos good = ok good
delta_lanes (suc left) bytes expected lanes lane pos good = do
  symbols ← u32_at bytes pos
  coded ← u32_at bytes (pos + 4 + 1024)
  let next = pos + (4 + 1024 + 4)
  let good' = good && (symbols == (expected + lanes - 1 - lane) / lanes)
  if ltb 0 symbols
      then (do
        fail_if (ltb (length bytes) (next + coded)) truncated
        delta_lanes left bytes expected lanes (lane + 1) (next + coded) good')
      else delta_lanes left bytes expected lanes (lane + 1) next good'

delta_lengths : Bytes → ℕ → Result AdaptiveError Bool
unfolding delta_lanes
delta_lengths bytes expected = do
  lanes ← ok_or (get_elem? bytes 1) truncated
  declared ← u32_at bytes 2
  delta_lanes lanes bytes expected lanes 0 6 ((declared == expected) && ltb 0 lanes)

-- The blocks of the baseline: the sum of the tokens that they declare.
unfoldable pub huffman_blocks : ℕ → Bytes → ℕ → ℕ → Result AdaptiveError ℕ
huffman_blocks zero bytes pos sum = ok sum
huffman_blocks (suc left) bytes pos sum = do
  tokens ← u32_at bytes pos
  size ← u32_at bytes (pos + 4)
  fail_if (ltb (length bytes) (pos + 8 + size)) truncated
  huffman_blocks left bytes (pos + 8 + size) (saturating_add sum tokens)

unfoldable pub huffman_lengths : Bytes → ℕ → Result AdaptiveError Bool
unfolding huffman_blocks
huffman_lengths bytes expected = do
  tokens ← u32_at bytes 0
  blocks ← u32_at bytes 4
  sum ← huffman_blocks blocks bytes 8 0
  ok (leb tokens expected && (sum == tokens))

starts_with_length : Bytes → ℕ → Result AdaptiveError Bool
starts_with_length bytes expected = do declared ← u32_at bytes 0; ok (declared == expected)

unfoldable pub consistent : CodecId → Bytes → ℕ → Result AdaptiveError Bool
unfolding starts_with_length rle_lengths delta_lengths huffman_lengths
consistent passthrough bytes expected = ok (length bytes == expected)
consistent lzma_style bytes expected = starts_with_length bytes expected
consistent ppm bytes expected = starts_with_length bytes expected
consistent bwt_rans bytes expected = starts_with_length bytes expected
consistent stride_cm bytes expected = starts_with_length bytes expected
consistent rle_huffman bytes expected = rle_lengths bytes expected
consistent delta_ans bytes expected = delta_lengths bytes expected
consistent lz77_huffman bytes expected = huffman_lengths bytes expected

unfoldable pub check_declared_lengths : CodecId → Bytes → ℕ → Result AdaptiveError (Unit {0})
unfolding consistent
check_declared_lengths codec bytes expected = do
  good ← consistent codec bytes expected
  if good then ok tt else err (length_mismatch (name codec))
