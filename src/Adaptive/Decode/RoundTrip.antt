-- ===== src/Adaptive/Decode/RoundTrip.antt =====
-- Decompression gives back what was compressed, whatever the selection chose.
use nexcomp.Base.{
  ℕ, ◌^◌, ◌≤◌, ◌<◌, ◌≡◌, refl, ap, ◌∙◌, arith, Bool, true, false, some, List, [], ◌∷◌, ◌++◌,
  append-nil, append_assoc, map, le→ltb, eq→==, if◌then◌else◌, length, All, Result, ok, err, stuck,
  returns,
}
use nexcomp.Base.Words.{Bytes, IsBytes}
use nexcomp.Codecs.Bcj.{Floats, bcj_encode, bcj_decode}
use nexcomp.Codecs.Bcj.RoundTrip.{bcj_decode-bcj_encode}
use nexcomp.Adaptive.{block_size, AdaptiveError, String}
use nexcomp.Adaptive.Crc.{crc32}
use nexcomp.Adaptive.Block.{
  Codecs, CodecChoice, Metrics, AdaptiveResult, compress_block_adaptive, decompress_block_adaptive,
}
use nexcomp.Adaptive.Block.Decoding.{CodecLaws, compress_block_decodes}
use nexcomp.Adaptive.Digest.{Blake3, Blake3Laws, concat, update_all}
use nexcomp.Adaptive.Wire.{chunks, adaptive_compress}
use nexcomp.Adaptive.Wire.Chunks.{IsChunk, chunks-IsChunk, concat-chunks}
use nexcomp.Adaptive.Wire.Header.{info}
use nexcomp.Adaptive.Wire.Parsing.{infos, FitsHeader, parse_container-write_container}
use nexcomp.Adaptive.Decode.{
  verify, finish, decode_block, bytes_eq, Writer, written, vec_writer, write_one, write_decoded,
  check_digest, write_blocks, try_adaptive_decompress, try_adaptive_decompress_limited,
}
use nexcomp.Lz77.Decoder.{usize_max}
use nexcomp.Adaptive.Decode.Groups.{write_blocks_sequential}

bytes_eq_refl : (bytes : Bytes) → bytes_eq bytes bytes ≡ true
unfolding bytes_eq
bytes_eq_refl [] = refl
bytes_eq_refl (b ∷ bytes) = rw (eq→== b b refl) (bytes_eq_refl bytes)

restored :
    (filtered : Bool) (chunk : Bytes)
    → IsBytes chunk
    → let out = if filtered then bcj_encode chunk else chunk in
      (if filtered then bcj_decode out else out) ≡ chunk
restored true chunk h = bcj_decode-bcj_encode chunk h
restored false chunk h = refl

verified : (r : AdaptiveResult) (chunk : Bytes) → verify (info r chunk) chunk ≡ ok chunk
unfolding verify
verified r chunk =
    rw (eq→== (length chunk) (length chunk) refl, eq→== (crc32 chunk) (crc32 chunk) refl) refl

decode_block-info :
    (codecs : Codecs) (r : AdaptiveResult) (chunk : Bytes)
    → IsBytes chunk
    → decompress_block_adaptive codecs r.codec r.compressed (length chunk)
      ≡ returns (ok (if r.bcj_applied then bcj_encode chunk else chunk))
    → decode_block codecs (info r chunk) ≡ ok chunk
unfolding decode_block finish
decode_block-info codecs r chunk h e = rw (e, restored r.bcj_applied chunk h) (verified r chunk)

-- A writer that takes chunks one after the other, up to the first that it refuses.
unfoldable pub feed : {W : Type 0} → Writer W → List Bytes → W → Result String (Unit {0}) × W
feed writer [] w = (ok tt, w)
feed writer (chunk ∷ cs) w =
    let (r, w') = writer.write_all w chunk in
    elim r [ ok u ↦ feed writer cs w' | err m ↦ (err m, w') | stuck ↦ (stuck, w') ]

-- A `Vec` takes them all.
feed-vec_writer : (cs : List Bytes) (w : Bytes) → feed vec_writer cs w ≡ (ok tt, w ++ concat cs)
unfolding feed
feed-vec_writer [] w = rw append-nil refl
feed-vec_writer (chunk ∷ cs) w = feed-vec_writer cs (w ++ chunk) ∙ rw append_assoc refl

module _ (codecs : Codecs) (compress_block : Bytes → AdaptiveResult) {H : Type 0} (b : Blake3 H)
    {W : Type 0} (writer : Writer W) where
  -- The block that the parser sees for a chunk decodes to the chunk.
  abbrev Decodes : Bytes → Type 0
  Decodes chunk = decode_block codecs (info (compress_block chunk) chunk) ≡ ok chunk

  -- What is done after a write agrees with what is fed after it.
  after_write-feed :
      (r : Result String (Unit {0})) (decoded : List (Result AdaptiveError Bytes)) (cs : List Bytes)
      (h last : H) (w : W)
      → write_decoded b writer true decoded h w
        ≡ (written last (feed writer cs w).0, (feed writer cs w).1)
      → let after : Result AdaptiveError H × W = elim (written h r) [
        | ok h' ↦ write_decoded b writer true decoded h' w
        | err e ↦ (err e, w)
        | stuck ↦ (stuck, w)
      ] in
        let fed : Result String (Unit {0}) × W = elim r [
          | ok u ↦ feed writer cs w
          | err m ↦ (err m, w)
          | stuck ↦ (stuck, w)
        ] in
        after ≡ (written last fed.0, fed.1)
  unfolding written
  after_write-feed (ok u) decoded cs h last w e = e
  after_write-feed (err m) decoded cs h last w e = refl
  after_write-feed stuck decoded cs h last w e = refl

  write_decoded-feed :
      (cs : List Bytes) (h : H) (w : W)
      → All Decodes cs
      → write_decoded b writer true (map (decode_block codecs) (infos compress_block cs)) h w
        ≡ (written (update_all b h cs) (feed writer cs w).0, (feed writer cs w).1)
  unfolding write_decoded write_one written feed
  write_decoded-feed [] h w d = refl
  write_decoded-feed (chunk ∷ cs) h w (dc, d) =
      let (r, w') = writer.write_all w chunk in
      let decoded = map (decode_block codecs) (infos compress_block cs) in
      ap (λ block. write_decoded b writer true (block ∷ decoded) h w) dc
      ∙ after_write-feed r decoded cs (b.update h chunk) (update_all b h (chunk ∷ cs)) w'
          (write_decoded-feed cs (b.update h chunk) w' d)

-- With the right digest, the result of the writer is what counts.
check_digest-written :
    {H : Type 0} (b : Blake3 H) {W : Type 0} (writer : Writer W) (d : Bytes) (n : ℕ) (h : H)
    (r : Result String (Unit {0}))
    → b.finalize h ≡ d
    → check_digest b writer (some d) n (written h r) ≡ written n r
unfolding check_digest written
check_digest-written b writer d n h (ok u) e = rw (e, bytes_eq_refl d) refl
check_digest-written b writer d n h (err m) e = refl
check_digest-written b writer d n h stuck e = refl

module _ (codecs : Codecs) (laws : CodecLaws codecs) {F : Type 0} (f : Floats F)
    (classify_block_v2 : Bytes → CodecChoice × Metrics F) {H : Type 0} (b : Blake3 H) where
  abbrev compressor : Bytes → AdaptiveResult
  compressor = compress_block_adaptive codecs f classify_block_v2

  chunks-Decodes :
      {W : Type 0} (writer : Writer W) (cs : List Bytes)
      → All (IsChunk block_size) cs
      → All (Decodes codecs compressor b writer) cs × All (FitsHeader compressor) cs
  chunks-Decodes writer [] h = (tt, tt)
  chunks-Decodes writer (chunk ∷ cs) ((ne, hb, hl), h) =
      let (d, fits) = compress_block_decodes codecs laws f classify_block_v2 chunk ne hb hl in
      let (ds, fs) = chunks-Decodes writer cs h in
      ((decode_block-info codecs (compressor chunk) chunk hb d, ds), (fits, fs))

  write_blocks-feed :
      {W : Type 0} (writer : Writer W) (threads : ℕ) (bytes : Bytes) (w : W)
      → IsBytes bytes
      → Blake3Laws b
      → write_blocks b writer codecs threads
          (record {
            orig_len = length bytes;
            blocks = infos compressor (chunks block_size bytes);
            digest = some (b.hash bytes);
          })
          w
        ≡ (
          written (length bytes) (feed writer (chunks block_size bytes) w).0,
          (feed writer (chunks block_size bytes) w).1,
        )
  write_blocks-feed writer threads bytes w hb hash =
      let cs = chunks block_size bytes in
      let joined : concat cs ≡ bytes = concat-chunks block_size (omega arith) bytes in
      let (d, fits) = chunks-Decodes writer cs (chunks-IsChunk block_size bytes (omega arith) hb) in
      let all = write_decoded-feed codecs compressor b writer cs b.new w d in
      let digest : b.finalize (update_all b b.new cs) ≡ b.hash bytes =
        hash.incremental cs ∙ ap b.hash joined in
      write_blocks_sequential b writer codecs threads _ w
      ∙ rw
          (
            all,
            check_digest-written b writer (b.hash bytes) (length bytes) (update_all b b.new cs)
                (feed writer cs w).0 digest,
          )
          refl

  write_blocks-written :
      (threads : ℕ) (bytes : Bytes)
      → IsBytes bytes
      → Blake3Laws b
      → write_blocks b vec_writer codecs threads
          (record {
            orig_len = length bytes;
            blocks = infos compressor (chunks block_size bytes);
            digest = some (b.hash bytes);
          })
          []
        ≡ (ok (length bytes), bytes)
  unfolding written
  write_blocks-written threads bytes hb hash =
      write_blocks-feed vec_writer threads bytes [] hb hash
      ∙ rw
          (
            feed-vec_writer (chunks block_size bytes) [],
            concat-chunks block_size (omega arith) bytes,
          )
          refl

  pub try_adaptive_decompress-adaptive_compress :
      (threads : ℕ) (bytes : Bytes) (max_output : ℕ)
      → IsBytes bytes
      → length bytes < 2 ^ 53
      → length bytes ≤ max_output
      → Blake3Laws b
      → try_adaptive_decompress_limited b codecs threads
          (adaptive_compress codecs f classify_block_v2 b bytes)
          max_output
        ≡ ok bytes
  unfolding adaptive_compress try_adaptive_decompress_limited
  try_adaptive_decompress-adaptive_compress threads bytes max_output hb small limit hash =
      let fits =
        (chunks-Decodes vec_writer (chunks block_size bytes)
          (chunks-IsChunk block_size bytes (omega arith) hb)).1 in
      rw
        (
          parse_container-write_container compressor b.hash bytes small (hash.hash_length bytes)
              fits,
          le→ltb max_output (length bytes) limit,
          write_blocks-written threads bytes hb hash,
        )
        refl

  try_adaptive_decompress-adaptive_compress_unlimited :
      (threads : ℕ) (bytes : Bytes)
      → IsBytes bytes
      → length bytes < 2 ^ 53
      → Blake3Laws b
      → try_adaptive_decompress b codecs threads
          (adaptive_compress codecs f classify_block_v2 b bytes)
        ≡ ok bytes
  unfolding try_adaptive_decompress
  try_adaptive_decompress-adaptive_compress_unlimited threads bytes hb small hash =
      try_adaptive_decompress-adaptive_compress threads bytes usize_max hb small (omega arith) hash
