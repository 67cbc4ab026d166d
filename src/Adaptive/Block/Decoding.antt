-- ===== src/Adaptive/Block/Decoding.antt =====
-- What is asked of the codecs behind the interface, and that a compressed block decodes to itself.
use nexcomp.Base.{
  ◌^◌, ◌≤◌, ◌<◌, ◌≡◌, ◌≢◌, refl, arith, inl, inr, Bool, true, false, some, [], ◌∷◌, if◌then◌else◌,
  length, ok, returns,
}
use nexcomp.Base.Words.{Bytes, IsBytes}
use nexcomp.Codecs.Bcj.{Floats, bcj_encode}
use nexcomp.Codecs.Bcj.RoundTrip.{bcj_encode-IsBytes, length-bcj_encode}
use nexcomp.Adaptive.{CodecId, passthrough, block_size}
use nexcomp.Adaptive.Lengths.{check_declared_lengths}
use nexcomp.Adaptive.Block.{
  Codecs, CodecChoice, Metrics, encode_with, select_best_codec, result_of, compress_block_adaptive,
  decompress_block_adaptive,
}
use nexcomp.Adaptive.Block.Selection.{select-Made}

-- What the container needs of each codec behind the interface, on blocks of at most `block_size`
-- bytes: its results fit a `u32` length, declare lengths that agree with the block, and decode to
-- the block.
pub record CodecLaws (codecs : Codecs) : Type 0 where
  pub fits :
      (codec : CodecId) (bytes out : Bytes)
      → IsBytes bytes
      → length bytes ≤ block_size
      → codecs.encode codec bytes ≡ returns (some out)
      → length out < 2 ^ 32
  pub declares :
      (codec : CodecId) (bytes out : Bytes)
      → codec ≢ passthrough
      → IsBytes bytes
      → length bytes ≤ block_size
      → codecs.encode codec bytes ≡ returns (some out)
      → check_declared_lengths codec out (length bytes) ≡ ok tt
  pub round_trip :
      (codec : CodecId) (bytes out : Bytes)
      → IsBytes bytes
      → length bytes ≤ block_size
      → codecs.encode codec bytes ≡ returns (some out)
      → codecs.decode codec out (length bytes) ≡ returns (some bytes)

module _ (codecs : Codecs) (laws : CodecLaws codecs) where
  stored_declares :
      (bytes : Bytes) → check_declared_lengths passthrough bytes (length bytes) ≡ ok tt
  unfolding check_declared_lengths
  stored_declares bytes = ground arith

  stored_decodes :
      (bytes : Bytes)
      → decompress_block_adaptive codecs passthrough bytes (length bytes) ≡ returns (ok bytes)
  unfolding decompress_block_adaptive
  stored_decodes bytes = rw (stored_declares bytes) refl

  coded_decodes :
      (codec : CodecId) (bytes out : Bytes)
      → codec ≢ passthrough
      → check_declared_lengths codec out (length bytes) ≡ ok tt
      → codecs.decode codec out (length bytes) ≡ returns (some bytes)
      → decompress_block_adaptive codecs codec out (length bytes) ≡ returns (ok bytes)
  unfolding decompress_block_adaptive
  coded_decodes passthrough bytes out ne c d = absurd (ne refl)
  coded_decodes codec bytes out ne c d = rw (c, d) refl

  made_decodes :
      (bytes : Bytes) (out : Bytes) (codec : CodecId)
      → IsBytes bytes
      → length bytes ≤ block_size
      → encode_with codecs codec bytes ≡ returns (some out)
      → (decompress_block_adaptive codecs codec out (length bytes) ≡ returns (ok bytes))
        × (length out < 2 ^ 32)
  unfolding encode_with
  made_decodes bytes out passthrough hb hl e =
      let same : bytes ≡ out = cc in rw (← same) (stored_decodes bytes, omega arith)
  made_decodes bytes out codec hb hl e = (
    coded_decodes _ bytes out (λ z. cc) (laws.declares _ bytes out (λ z. cc) hb hl e)
        (laws.round_trip _ bytes out hb hl e),
    laws.fits _ bytes out hb hl e,
  )

  module _ {F : Type 0} (f : Floats F) (classify_block_v2 : Bytes → CodecChoice × Metrics F) where
    select_decodes :
        (bytes : Bytes)
        → IsBytes bytes
        → length bytes ≤ block_size
        → let best = select_best_codec codecs f classify_block_v2 bytes in
          (decompress_block_adaptive codecs best.1 best.0 (length bytes) ≡ returns (ok bytes))
          × (length best.0 < 2 ^ 32)
    select_decodes bytes hb hl = elim (select-Made codecs f classify_block_v2 bytes) [
      | inl (e, ne) ↦
          let best = select_best_codec codecs f classify_block_v2 bytes in
          made_decodes bytes best.0 best.1 hb hl e
      | inr e ↦ rw e (stored_decodes bytes, omega arith)
    ]

    filtered_decodes :
        (bytes : Bytes)
        → IsBytes bytes
        → length bytes ≤ block_size
        → let best = select_best_codec codecs f classify_block_v2 (bcj_encode bytes) in
          (decompress_block_adaptive codecs best.1 best.0 (length bytes)
            ≡ returns (ok (bcj_encode bytes)))
          × (length best.0 < 2 ^ 32)
    filtered_decodes bytes hb hl = rw length-bcj_encode at (
        select_decodes (bcj_encode bytes) (bcj_encode-IsBytes bytes hb)
          (rw (length-bcj_encode bytes) hl))

    result_of-decodes :
        (bytes : Bytes) (t : Bool) (filtered plain : Bytes × CodecId)
        → (decompress_block_adaptive codecs filtered.1 filtered.0 (length bytes)
            ≡ returns (ok (bcj_encode bytes)))
          × (length filtered.0 < 2 ^ 32)
        → (decompress_block_adaptive codecs plain.1 plain.0 (length bytes) ≡ returns (ok bytes))
          × (length plain.0 < 2 ^ 32)
        → let r = result_of t filtered plain in
          (decompress_block_adaptive codecs r.codec r.compressed (length bytes)
            ≡ returns (ok (if r.bcj_applied then bcj_encode bytes else bytes)))
          × (length r.compressed < 2 ^ 32)
    unfolding result_of
    result_of-decodes bytes true filtered plain hf hp = hf
    result_of-decodes bytes false filtered plain hf hp = hp

    pub compress_block_decodes :
        (bytes : Bytes)
        → bytes ≢ []
        → IsBytes bytes
        → length bytes ≤ block_size
        → let r = compress_block_adaptive codecs f classify_block_v2 bytes in
          (decompress_block_adaptive codecs r.codec r.compressed (length bytes)
            ≡ returns (ok (if r.bcj_applied then bcj_encode bytes else bytes)))
          × (length r.compressed < 2 ^ 32)
    unfolding compress_block_adaptive
    compress_block_decodes [] ne hb hl = absurd (ne refl)
    compress_block_decodes (b ∷ bytes) ne hb hl =
        let block = b ∷ bytes in
        result_of-decodes block _ _ _ (filtered_decodes block hb hl) (select_decodes block hb hl)
