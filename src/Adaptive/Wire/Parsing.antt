-- ===== src/Adaptive/Wire/Parsing.antt =====
-- The container that is written is parsed back: every block, the length and the digest.
use nexcomp.Base.{
  ℕ, zero, suc, ◌+◌, ◌-◌, ◌*◌, ◌/◌, ◌^◌, ◌≤◌, ◌<◌, min, ◌≡◌, refl, sym, ap, ◌∙◌, arith, some, List,
  [], ◌∷◌, ◌++◌, append_assoc, le→leb, le→ltb, eq→==, if-true, length, length-append, take, drop,
  length-take, length-drop, drop-drop, drop-append_length, All, ok,
}
use nexcomp.Base.Words.{Bytes, to_le, of_le-to_le}
use nexcomp.Adaptive.{block_size, block_header_len, file_header_len, file_digest_len}
use nexcomp.Lz77.Decoder.{usize_max}
use nexcomp.Codecs.Bcj.{starts_with}
use nexcomp.Adaptive.Reader.{slice?, read_le, u32_at}
use nexcomp.Adaptive.Block.{AdaptiveResult}
use nexcomp.Adaptive.Wire.{
  nx15, chunks_loop, chunks, block_bytes, blocks_bytes, write_container, footer_len, BlockInfo,
  parse_loop, div_ceil, parse_container, parse_blocks,
}
use nexcomp.Adaptive.Wire.Chunks.{length-chunks}
use nexcomp.Adaptive.Wire.Header.{info, parse_block-block_bytes, length-block_bytes}

-- The parsed forms of all blocks.
abbrev pub infos : (Bytes → AdaptiveResult) → List Bytes → List BlockInfo
infos compress_block [] = []
infos compress_block (chunk ∷ rest) = info (compress_block chunk) chunk ∷ infos compress_block rest

module _ (compress_block : Bytes → AdaptiveResult) where
  -- The compressed form of a chunk has a length that its header can hold.
  abbrev pub FitsHeader : Bytes → Type 0
  FitsHeader chunk = length (compress_block chunk).compressed < 2 ^ 32

  next_suffix :
      (payload chunk more : Bytes) (pos : ℕ)
      → pos ≤ length payload
      → drop pos payload ≡ block_bytes (compress_block chunk) chunk ++ more
      → let next = pos + block_header_len + length (compress_block chunk).compressed in
        (next ≤ length payload) × (drop next payload ≡ more)
  next_suffix payload chunk more pos h e =
      let bs = block_bytes (compress_block chunk) chunk in
      let n = length (compress_block chunk).compressed in
      let l : length bs ≡ block_header_len + n = length-block_bytes (compress_block chunk) chunk in
      let here : length payload - pos ≡ length bs + length more =
        sym (length-drop pos payload) ∙ ap length e ∙ length-append bs more in
      let at : pos + block_header_len + n ≡ pos + length bs = omega arith in
      (omega arith, rw (at, ← drop-drop pos (length bs) payload, e) (drop-append_length bs more))

  parse_loop-blocks_bytes :
      (fuel : ℕ) (rest footer payload : Bytes) (orig_len index pos : ℕ)
      → length rest ≤ fuel
      → pos ≤ length payload
      → drop pos payload ≡ blocks_bytes compress_block (chunks_loop fuel block_size rest) ++ footer
      → orig_len - index * block_size ≡ length rest
      → All FitsHeader (chunks_loop fuel block_size rest)
      → (end : ℕ) × (parse_loop
            (length (chunks_loop fuel block_size rest))
            payload
            orig_len
            index
            pos
          ≡ ok (infos compress_block (chunks_loop fuel block_size rest), end))
        × (end ≤ length payload)
        × (drop end payload ≡ footer)
  unfolding chunks_loop blocks_bytes parse_loop
  parse_loop-blocks_bytes fuel [] footer payload orig_len index pos hf h e l fits =
      (pos, refl, h, e)
  parse_loop-blocks_bytes zero (b ∷ bytes) footer payload orig_len index pos hf h e l fits =
      absurd (omega arith)
  parse_loop-blocks_bytes (suc fuel) (b ∷ bytes) footer payload orig_len index pos hf h e l
        (fit, fits) =
      let rest = b ∷ bytes in
      let chunk = take block_size rest in
      let rest' = drop block_size rest in
      let more = blocks_bytes compress_block (chunks_loop fuel block_size rest') in
      let bs = block_bytes (compress_block chunk) chunk in
      let e' : drop pos payload ≡ bs ++ (more ++ footer) = e ∙ append_assoc bs more footer in
      let layout : length chunk ≡ min block_size (orig_len - index * block_size) =
        length-take block_size rest ∙ ap (min block_size) (sym l) in
      let next = pos + block_header_len + length (compress_block chunk).compressed in
      let (h', s') = next_suffix payload chunk (more ++ footer) pos h e' in
      let left : length rest' ≡ length rest - block_size = length-drop block_size rest in
      let (end, p, q, r) =
        parse_loop-blocks_bytes fuel rest' footer payload orig_len (index + 1) next (omega arith) h'
          s' (omega arith) fits in
      (
        end,
        rw
            (
              parse_block-block_bytes payload (more ++ footer) orig_len index pos
                  (compress_block chunk) chunk h e' layout fit,
              p,
            )
            refl,
        q,
        r,
      )

  length-blocks_bytes :
      (blocks : List Bytes)
      → length blocks * block_header_len ≤ length (blocks_bytes compress_block blocks)
  unfolding blocks_bytes
  length-blocks_bytes [] = omega arith
  length-blocks_bytes (chunk ∷ rest) = omega (
    arith,
    length-blocks_bytes rest,
    length-block_bytes (compress_block chunk) chunk,
    length-append (block_bytes (compress_block chunk) chunk) (blocks_bytes compress_block rest),
  )

-- The fixed part of the file, and what follows it.
module _ (n count : ℕ) (rest : Bytes) where
  abbrev whole : Bytes
  whole = nx15 ++ (to_le 8 n ++ (to_le 4 count ++ rest))

  length-whole : length whole ≡ file_header_len + length rest
  unfolding to_le
  length-whole = omega arith

  footer_len-whole : footer_len whole ≡ some file_digest_len
  unfolding footer_len starts_with
  footer_len-whole = refl

  drop-whole : drop file_header_len whole ≡ rest
  unfolding to_le
  drop-whole = refl

  read_length : n < 2 ^ 64 → read_le 8 whole 4 ≡ ok (to_le 8 n)
  unfolding read_le
  read_length h =
      let e : slice? whole 4 8 ≡ some (to_le 8 n) =
        unfold to_le in if-true _ _ (le→leb 12 (length whole) (omega arith)) in
      rw e refl

  read_count : count < 2 ^ 32 → u32_at whole 12 ≡ ok count
  unfolding u32_at read_le
  read_count h =
      let e : slice? whole 12 4 ≡ some (to_le 4 count) =
        unfold to_le in if-true _ _ (le→leb 16 (length whole) (omega arith)) in
      rw e (ap ok (of_le-to_le 4 count (omega arith)))

parse_loop-chunks :
    (compress_block : Bytes → AdaptiveResult) (bytes footer payload : Bytes)
    → file_header_len ≤ length payload
    → drop file_header_len payload ≡ blocks_bytes compress_block (chunks block_size bytes) ++ footer
    → All (FitsHeader compress_block) (chunks block_size bytes)
    → (end : ℕ) × (parse_loop
          (length (chunks block_size bytes))
          payload
          (length bytes)
          0
          file_header_len
        ≡ ok (infos compress_block (chunks block_size bytes), end))
      × (end ≤ length payload)
      × (drop end payload ≡ footer)
unfolding chunks
parse_loop-chunks compress_block bytes footer payload h e fits =
    parse_loop-blocks_bytes compress_block (length bytes) bytes footer payload (length bytes) 0
      file_header_len (omega arith) h e (omega arith) fits

-- The parser returns what was written: the length of the input, one block for each chunk with the
-- result of its compression, and the hash, if the input is below 2 ^ 53 bytes, the hash has 32
-- bytes, and every compressed block has a length below 2 ^ 32.
pub parse_container-write_container :
    (compress_block : Bytes → AdaptiveResult) (hash : Bytes → Bytes) (bytes : Bytes)
    → length bytes < 2 ^ 53
    → length (hash bytes) ≡ file_digest_len
    → All (FitsHeader compress_block) (chunks block_size bytes)
    → parse_container (write_container compress_block hash bytes)
      ≡ ok (record {
        orig_len = length bytes;
        blocks = infos compress_block (chunks block_size bytes);
        digest = some (hash bytes);
      })
unfolding write_container
parse_container-write_container compress_block hash bytes small hashed fits =
    let n = length bytes in
    let blocks = chunks block_size bytes in
    let count = length blocks in
    let body = blocks_bytes compress_block blocks in
    let rest = body ++ hash bytes in
    let payload = whole n count rest in
    let size : length payload ≡ file_header_len + length rest = length-whole n count rest in
    let size' : length rest ≡ length body + file_digest_len =
      length-append body (hash bytes) ∙ ap (λ t. length body + t) hashed in
    let counted : count ≡ div_ceil n block_size = length-chunks block_size (omega arith) bytes in
    let few : count < 2 ^ 32 = omega arith in
    let room : count * block_header_len ≤ length body = length-blocks_bytes compress_block blocks in
    let (end, p, q, r) =
      parse_loop-chunks compress_block bytes (hash bytes) payload (omega arith)
        (drop-whole n count rest) fits in
    let tail : length payload - end ≡ file_digest_len =
      sym (length-drop end payload) ∙ ap length r ∙ hashed in
    unfold parse_container in
    rw
      (
        footer_len-whole n count rest,
        le→ltb (length payload) (file_header_len + file_digest_len) (omega arith),
        read_length n count rest (omega arith),
        of_le-to_le 8 n (omega arith),
        le→ltb usize_max n (omega arith),
        read_count n count rest few,
        le→ltb ((length payload - file_header_len - file_digest_len) / block_header_len) count
            (omega arith),
        eq→== count (div_ceil n block_size) counted,
        p,
        le→ltb (length payload) (end + file_digest_len) (omega arith),
        le→ltb (end + file_digest_len) (length payload) (omega arith),
        r,
      )
      refl

parse_blocks-write_container :
    (compress_block : Bytes → AdaptiveResult) (hash : Bytes → Bytes) (bytes : Bytes)
    → length bytes < 2 ^ 53
    → length (hash bytes) ≡ file_digest_len
    → All (FitsHeader compress_block) (chunks block_size bytes)
    → parse_blocks (write_container compress_block hash bytes)
      ≡ ok (length bytes, infos compress_block (chunks block_size bytes))
unfolding parse_blocks
parse_blocks-write_container compress_block hash bytes small hashed fits =
    rw (parse_container-write_container compress_block hash bytes small hashed fits) refl
