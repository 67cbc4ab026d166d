-- ===== src/Adaptive/Decode.antt =====
-- Decoding of src/adaptive.rs: one block, the groups of blocks that are decoded at once, and the
-- writing of the output with the check of the file hash.
pub mod Groups
pub mod RoundTrip
pub mod Soundness
use nexcomp.Base.{
  ℕ, zero, suc, ◌+◌, ◌*◌, ◌^◌, min, max, Bool, true, false, ◌&&◌, Option, none, some, List, [], ◌∷◌,
  ◌++◌, map, ◌==◌, ltb, if◌then◌else◌, length, take, drop, Result, ok, err, stuck, ◌>>=◌, ◌>>◌,
  fail_if, Outcome, returns, panics,
}
use nexcomp.Base.Words.{Bytes}
use nexcomp.Lz77.Decoder.{usize_max, saturating_add}
use nexcomp.Codecs.Bcj.{bcj_decode}
use nexcomp.Adaptive.{
  CodecId, ppm, bwt_rans, stride_cm, name, String, AdaptiveError, decoder_panic, checksum_mismatch,
  size_mismatch, output_limit, digest_mismatch, io,
}
use nexcomp.Adaptive.Crc.{crc32}
use nexcomp.Adaptive.Block.{Codecs, decompress_block_adaptive}
use nexcomp.Adaptive.Digest.{Blake3}
use nexcomp.Adaptive.Wire.{BlockInfo, Container, parse_container}

-- The length and the checksum of a decoded block, against its header.
pub verify : BlockInfo → Bytes → Result AdaptiveError Bytes
verify block decoded =
    if length decoded == block.orig_len
    then (if crc32 decoded == block.crc then ok decoded else err checksum_mismatch)
    else err (size_mismatch block.orig_len (length decoded))

-- The filter is undone only where a codec succeeded; a panic becomes an error.
unfoldable pub finish :
    BlockInfo → Outcome (Result AdaptiveError Bytes) → Result AdaptiveError Bytes
unfolding verify
finish block panics = err (decoder_panic (name block.codec))
finish block (returns r) = do
  decompressed ← r
  verify block (if block.bcj_applied then bcj_decode decompressed else decompressed)

pub decode_block : Codecs → BlockInfo → Result AdaptiveError Bytes
unfolding finish
decode_block codecs block =
    finish block (decompress_block_adaptive codecs block.codec block.bytes block.orig_len)

-- `saturating_mul` of `usize`.
abbrev saturating_mul : ℕ → ℕ → ℕ
saturating_mul a b = min (a * b) usize_max

abbrev cost_factor : CodecId → ℕ
cost_factor ppm = 384
cost_factor bwt_rans = 24
cost_factor stride_cm = 8
cost_factor codec = 4

unfoldable pub decode_cost : BlockInfo → ℕ
decode_cost block = saturating_mul block.orig_len (cost_factor block.codec)

abbrev pub decode_memory_budget : ℕ
decode_memory_budget = 2 * 2 ^ 30

-- The loop of `group_within_budget`: `taken` blocks cost `total` so far. `none` if it runs through.
pub group_loop : ℕ → ℕ → List BlockInfo → Option ℕ
unfolding decode_cost
group_loop taken total [] = none
group_loop taken total (block ∷ blocks) =
    let total' = saturating_add total (decode_cost block) in
    let on = group_loop (taken + 1) total' blocks in
    if ltb 0 taken && ltb decode_memory_budget total' then some taken else on

abbrev or_else : Option ℕ → ℕ → ℕ
or_else none n = n
or_else (some m) n = m

unfoldable pub group_within_budget : List BlockInfo → ℕ → ℕ
unfolding group_loop
group_within_budget blocks in_flight =
    or_else (group_loop 0 0 (take in_flight blocks)) (max (min (length blocks) in_flight) 1)

-- `std::io::Write`: what an attempt to write everything returns, and the writer after it.
pub record Writer (W : Type 0) : Type 0 where
  pub write_all : W → Bytes → Result String (Unit {0}) × W

-- A `Vec<u8>` takes everything.
abbrev pub vec_writer : Writer Bytes
vec_writer = record { write_all = λ out bytes. (ok tt, out ++ bytes) }

-- Equality of two slices.
pub bytes_eq : Bytes → Bytes → Bool
bytes_eq [] [] = true
bytes_eq [] (y ∷ ys) = false
bytes_eq (x ∷ xs) [] = false
bytes_eq (x ∷ xs) (y ∷ ys) = x == y && bytes_eq xs ys

-- `write_all(…).map_err(Io)?`.
unfoldable pub written : {H : Type 0} → H → Result String (Unit {0}) → Result AdaptiveError H
written h (ok u) = ok h
written h (err m) = err (io m)
written h stuck = stuck

module _ {H : Type 0} (b : Blake3 H) {W : Type 0} (writer : Writer W) (hashing : Bool) where
  -- One decoded block: its error, or the hash updated and the block written. The writer keeps what
  -- it took before an error.
  pub write_one : Result AdaptiveError Bytes → H → W → Result AdaptiveError H × W
  unfolding written
  write_one (err e) h w = (err e, w)
  write_one stuck h w = (stuck, w)
  write_one (ok block) h w =
      let (r, w') = writer.write_all w block in
      (written (if hashing then b.update h block else h) r, w')

  -- The inner loop over the decoded blocks of a group.
  pub write_decoded : List (Result AdaptiveError Bytes) → H → W → Result AdaptiveError H × W
  unfolding write_one
  write_decoded [] h w = (ok h, w)
  write_decoded (block ∷ decoded) h w =
      let (r, w') = write_one block h w in
      elim r [ ok h' ↦ write_decoded decoded h' w' | err e ↦ (err e, w') | stuck ↦ (stuck, w') ]

  -- The outer loop, group by group. A group has at least one block, so the number of blocks is
  -- enough fuel.
  pub write_loop : Codecs → ℕ → ℕ → List BlockInfo → H → W → Result AdaptiveError H × W
  write_loop codecs in_flight fuel [] h w = (ok h, w)
  write_loop codecs in_flight zero (block ∷ rest) h w = (stuck, w)
  write_loop codecs in_flight (suc fuel) (block ∷ rest) h w =
      let n = group_within_budget (block ∷ rest) in_flight in
      let (r, w') = write_decoded (map (decode_block codecs) (take n (block ∷ rest))) h w in
      elim r [
        | ok h' ↦ write_loop codecs in_flight fuel (drop n (block ∷ rest)) h' w'
        | err e ↦ (err e, w')
        | stuck ↦ (stuck, w')
      ]

abbrev pub is_some : Option Bytes → Bool
is_some none = false
is_some (some d) = true

module _ {H : Type 0} (b : Blake3 H) {W : Type 0} (writer : Writer W) where
  -- The comparison with the digest of the footer.
  pub check_digest : Option Bytes → ℕ → Result AdaptiveError H → Result AdaptiveError ℕ
  unfolding bytes_eq
  check_digest none orig_len r = do h ← r; ok orig_len
  check_digest (some d) orig_len r = do
    h ← r
    if bytes_eq (b.finalize h) d then ok orig_len else err digest_mismatch

  -- `threads` is `rayon::current_num_threads()`.
  pub write_blocks : Codecs → ℕ → Container → W → Result AdaptiveError ℕ × W
  write_blocks codecs threads c w =
      let in_flight = max threads 1 in
      let (r, w') =
        write_loop b writer (is_some c.digest) codecs in_flight (length c.blocks) c.blocks b.new
          w in
      (check_digest c.digest c.orig_len r, w')

  pub decompress_to : Codecs → ℕ → Bytes → W → Result AdaptiveError ℕ × W
  decompress_to codecs threads payload w = elim (parse_container payload) [
    | ok c ↦ write_blocks codecs threads c w
    | err e ↦ (err e, w)
    | stuck ↦ (stuck, w)
  ]

module _ {H : Type 0} (b : Blake3 H) (codecs : Codecs) (threads : ℕ) where
  pub try_adaptive_decompress_limited : Bytes → ℕ → Result AdaptiveError Bytes
  try_adaptive_decompress_limited payload max_output = do
    c ← parse_container payload
    fail_if (ltb max_output c.orig_len) (output_limit c.orig_len max_output)
    let written = write_blocks b vec_writer codecs threads c []
    written.0 >>= λ n. ok written.1

  try_adaptive_decompress : Bytes → Result AdaptiveError Bytes
  unfolding try_adaptive_decompress_limited
  try_adaptive_decompress payload = try_adaptive_decompress_limited payload usize_max
