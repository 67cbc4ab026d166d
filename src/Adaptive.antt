-- ===== src/Adaptive.antt =====
-- src/adaptive.rs: the codec ids and the errors of the container, and the modules for its parts.
pub mod Crc
pub mod Reader
pub mod Block
pub mod Lengths
pub mod Digest
pub mod Wire
pub mod Decode
pub mod Baseline
pub mod Summary
use nexcomp.Base.{ℕ, ◌-◌, ◌*◌, ◌^◌, Option, none, some, ◌==◌, if◌then◌else◌}
pub use Prim.Native.String.{String}

pub data CodecId : Type 0 where
  lz77_huffman lzma_style delta_ans rle_huffman passthrough bwt_rans ppm stride_cm : CodecId

-- The discriminant, `codec as u8`.
pub to_u8 : CodecId → ℕ
to_u8 lz77_huffman = 0
to_u8 lzma_style = 1
to_u8 delta_ans = 2
to_u8 rle_huffman = 3
to_u8 passthrough = 4
to_u8 bwt_rans = 5
to_u8 ppm = 6
to_u8 stride_cm = 7

pub from_u8 : ℕ → Option CodecId
from_u8 v =
    if v == 0
    then some lz77_huffman
    else if v == 1
    then some lzma_style
    else if v == 2
    then some delta_ans
    else if v == 3
    then some rle_huffman
    else if v == 4
    then some passthrough
    else if v == 5
    then some bwt_rans
    else if v == 6
    then some ppm
    else if v == 7
    then some stride_cm
    else none

pub name : CodecId → String
name lz77_huffman = "lz77huf"
name lzma_style = "lzma"
name delta_ans = "delta"
name rle_huffman = "rlehuf"
name passthrough = "store"
name bwt_rans = "bwt"
name ppm = "ppm"
name stride_cm = "stride-cm"

pub data AdaptiveError : Type 0 where
  bad_magic truncated trailing_bytes : AdaptiveError
  unknown_codec : ℕ → AdaptiveError
  decode_failed : String → AdaptiveError
  decoder_panic : String → AdaptiveError
  checksum_mismatch : AdaptiveError
  length_mismatch : String → AdaptiveError
  bad_layout : AdaptiveError
  output_limit : ℕ → ℕ → AdaptiveError
  size_mismatch : ℕ → ℕ → AdaptiveError
  digest_mismatch : AdaptiveError
  io : String → AdaptiveError
  too_large_for_this_build : ℕ → AdaptiveError

abbrev pub block_size : ℕ
block_size = 4 * 1024 * 1024

abbrev pub file_digest_len : ℕ
file_digest_len = 32

abbrev pub file_header_len : ℕ
file_header_len = 16

abbrev pub block_header_len : ℕ
block_header_len = 14
