-- ===== src/Adaptive/Wire.antt =====
-- The container of src/adaptive.rs: `adaptive_compress` writes it, `parse_container` reads it.
pub mod Chunks
pub mod Header
pub mod Parsing
pub mod Layout
use nexcomp.Base.{
  ℕ, zero, suc, ◌+◌, ◌-◌, ◌*◌, ◌/◌, ◌^◌, min, Bool, true, false, ◌≡◌, Option, none, some, List, [],
  ◌∷◌, ◌++◌, ◌==◌, ltb, leb, if◌then◌else◌, length, get_or, take, drop, Result, ok, err, stuck,
  ◌>>=◌, ◌>>◌, fail_if, ok_or,
}
use nexcomp.Base.Words.{Bytes, to_le, of_le}
use nexcomp.Lz77.Decoder.{usize_max}
use nexcomp.Codecs.Bcj.{Floats, starts_with}
use nexcomp.Adaptive.{
  CodecId, to_u8, from_u8, name, String, AdaptiveError, bad_magic, truncated, trailing_bytes,
  unknown_codec, bad_layout, too_large_for_this_build, block_size, file_digest_len, file_header_len,
  block_header_len,
}
use nexcomp.Adaptive.Crc.{crc32}
use nexcomp.Adaptive.Reader.{slice?, read_le, u32_at}
use nexcomp.Adaptive.Block.{Codecs, CodecChoice, Metrics, AdaptiveResult, compress_block_adaptive}
use nexcomp.Adaptive.Digest.{Blake3}

abbrev pub nx13 : Bytes
nx13 = 0x4e ∷ 0x58 ∷ 0x31 ∷ 0x33 ∷ []

abbrev pub nx14 : Bytes
nx14 = 0x4e ∷ 0x58 ∷ 0x31 ∷ 0x34 ∷ []

abbrev pub nx15 : Bytes
nx15 = 0x4e ∷ 0x58 ∷ 0x31 ∷ 0x35 ∷ []

-- `data.chunks(size)`; the length of the data is enough fuel.
pub chunks_loop : ℕ → ℕ → Bytes → List Bytes
chunks_loop fuel size [] = []
chunks_loop zero size (b ∷ bytes) = []
chunks_loop (suc fuel) size (b ∷ bytes) =
    take size (b ∷ bytes) ∷ chunks_loop fuel size (drop size (b ∷ bytes))

unfoldable pub chunks : ℕ → Bytes → List Bytes
unfolding chunks_loop
chunks size bytes = chunks_loop (length bytes) size bytes

-- The header of one block, and its payload.
pub block_bytes : AdaptiveResult → Bytes → Bytes
unfolding to_u8 to_le
block_bytes r chunk =
    to_u8 r.codec
    ∷ (if r.bcj_applied then 1 else 0)
    ∷ (to_le 4 (length chunk)
        ++ (to_le 4 (length r.compressed) ++ (to_le 4 (crc32 chunk) ++ r.compressed)))

pub blocks_bytes : (Bytes → AdaptiveResult) → List Bytes → Bytes
blocks_bytes compress_block [] = []
blocks_bytes compress_block (chunk ∷ rest) =
    block_bytes (compress_block chunk) chunk ++ blocks_bytes compress_block rest

-- `adaptive_compress`, over the compressor of one block and the hash.
pub write_container : (Bytes → AdaptiveResult) → (Bytes → Bytes) → Bytes → Bytes
unfolding chunks blocks_bytes block_bytes
write_container compress_block hash bytes =
    let blocks = chunks block_size bytes in
    nx15
    ++ (to_le 8 (length bytes)
        ++ (to_le 4 (length blocks) ++ (blocks_bytes compress_block blocks ++ hash bytes)))

-- The length of the footer of the format that the payload's magic names, first match.
pub footer_len : Bytes → Option ℕ
footer_len payload =
    if starts_with payload nx13
    then some 0
    else if starts_with payload nx14
    then some file_digest_len
    else if starts_with payload nx15
    then some file_digest_len
    else none

pub record BlockInfo : Type 0 where
  pub codec : CodecId
  pub bcj_applied : Bool
  pub orig_len : ℕ
  pub crc : ℕ
  pub bytes : Bytes

-- One round of the loop at block `index` and position `pos`: the block and the position behind it.
unfoldable pub parse_block : Bytes → ℕ → ℕ → ℕ → Result AdaptiveError (BlockInfo × ℕ)
parse_block payload orig_len index pos = do
  head ← read_le 2 payload pos
  codec ← ok_or (from_u8 (get_or head 0 0)) (unknown_codec (get_or head 0 0))
  block_orig ← u32_at payload (pos + 2)
  comp_len ← u32_at payload (pos + 6)
  crc ← u32_at payload (pos + 10)
  fail_if (if block_orig == min block_size (orig_len - index * block_size) then false else true)
      bad_layout
  bytes ← ok_or (slice? payload (pos + block_header_len) comp_len) truncated
  ok (
    record {
      codec = codec;
      bcj_applied = if get_or head 1 0 == 0 then false else true;
      orig_len = block_orig;
      crc = crc;
      bytes = bytes;
    },
    pos + block_header_len + comp_len,
  )

-- The loop, `left` blocks from its end.
unfoldable pub parse_loop : ℕ → Bytes → ℕ → ℕ → ℕ → Result AdaptiveError (List BlockInfo × ℕ)
unfolding parse_block
parse_loop zero payload orig_len index pos = ok ([], pos)
parse_loop (suc left) payload orig_len index pos =
    parse_block payload orig_len index pos >>= λ (block, next).
    parse_loop left payload orig_len (index + 1) next >>= λ (blocks, end). ok (block ∷ blocks, end)

abbrev pub div_ceil : ℕ → ℕ → ℕ
div_ceil a b = (a + b - 1) / b

pub record Container : Type 0 where
  pub orig_len : ℕ
  pub blocks : List BlockInfo
  pub digest : Option Bytes

unfoldable pub parse_container : Bytes → Result AdaptiveError Container
unfolding parse_loop footer_len
parse_container payload = do
  footer ← ok_or (footer_len payload) bad_magic
  fail_if (ltb (length payload) (file_header_len + footer)) truncated
  declared ← read_le 8 payload 4
  let orig_len = of_le declared
  fail_if (ltb usize_max orig_len) (too_large_for_this_build orig_len)
  block_count ← u32_at payload 12
  fail_if (ltb ((length payload - file_header_len - footer) / block_header_len) block_count)
      truncated
  fail_if (if block_count == div_ceil orig_len block_size then false else true) bad_layout
  parsed ← parse_loop block_count payload orig_len 0 file_header_len
  fail_if (ltb (length payload) (parsed.1 + footer)) truncated
  fail_if (ltb (parsed.1 + footer) (length payload)) trailing_bytes
  ok (record {
    orig_len = orig_len;
    blocks = parsed.0;
    digest = if ltb 0 footer then some (drop parsed.1 payload) else none;
  })

unfoldable pub parse_blocks : Bytes → Result AdaptiveError (ℕ × List BlockInfo)
unfolding parse_container
parse_blocks payload = do c ← parse_container payload; ok (c.orig_len, c.blocks)

-- The whole compressor, over the codecs, the floats, the classifier and the hash.
unfoldable pub adaptive_compress :
    Codecs
    → {F : Type 0} → Floats F
    → (Bytes → CodecChoice × Metrics F)
    → {H : Type 0} → Blake3 H
    → Bytes
    → Bytes
adaptive_compress codecs f classify_block_v2 b bytes =
    write_container (compress_block_adaptive codecs f classify_block_v2) b.hash bytes
