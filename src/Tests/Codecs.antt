-- ===== src/Tests/Codecs.antt =====
-- src/codecs/mod.rs and delta_ans.rs at concrete inputs.
use nexcomp.Base.{ℕ, ◌≡◌, ◌^◌, refl, arith, [], ◌∷◌, replicate, ok, err, returns}
use nexcomp.Base.Words.{Bytes}
use nexcomp.Codecs.Rle.{rle_encode, rle_decode, varint_encode, run_length, zero_run}
use nexcomp.Codecs.Rle.RoundTrip.{rle_decode-rle_encode, rle_decode-rle_encode_wrapped}
use nexcomp.Codecs.Block.{
  Logarithms, compress_block, decompress_block, decompress_block-compress_block,
}
use nexcomp.Codecs.Delta.{
  xor_delta_stride, xor_from, xor_delta_stride_inverse, arith_delta, arith_delta_inverse,
  split_lanes, split_from, push, merge_lanes,
}
use nexcomp.Codecs.Delta.Residuals.{
  xor_delta_stride_inverse-xor_delta_stride, arith_delta_inverse-arith_delta,
}
use nexcomp.Codecs.Delta.Lanes.{merge_lanes-split_lanes}
use nexcomp.Codecs.Delta.Payload.{delta_ans_encode, delta_ans_decode}
use nexcomp.Codecs.Delta.Payload.RoundTrip.{delta_ans_decode-delta_ans_encode}
use nexcomp.Tests.Instances.{milli}
use nexcomp.Adaptive.Lengths.DeltaAns.{IsAccepted, delta_ans_encode-IsAccepted}

abbrev runs : Bytes
runs = 5 ∷ 5 ∷ 5 ∷ 7 ∷ 7 ∷ 9 ∷ []

rle_encode-runs : rle_encode runs ≡ 5 ∷ 3 ∷ 7 ∷ 2 ∷ 9 ∷ 1 ∷ []
unfolding rle_encode varint_encode run_length
rle_encode-runs = refl

rle_decode-rle_encode_example : rle_decode (rle_encode runs) ≡ ok runs
rle_decode-rle_encode_example = rle_decode-rle_encode runs (omega arith)

rle_decode-rle_encode_wrapped_example :
    rle_decode (rle_encode (replicate (2 ^ 22) 0)) ≡ err zero_run
rle_decode-rle_encode_wrapped_example =
    rle_decode-rle_encode_wrapped (2 ^ 22) 0 (omega arith) (omega arith)

-- Logarithms that are all zero: the entropy then never passes a bound.
abbrev flat : Logarithms ℕ
flat = record { zero_float = 0; plus = λ x y. x; times = λ x y. 0; negate = λ x. x; log2 = λ x. 0 }

decompress_block-compress_block_example :
    decompress_block (compress_block milli flat runs).0 (compress_block milli flat runs).1 ≡ ok runs
decompress_block-compress_block_example =
    decompress_block-compress_block milli flat runs (omega arith)

xor_delta_stride-runs : xor_delta_stride runs 2 ≡ 5 ∷ 5 ∷ 0 ∷ 2 ∷ 2 ∷ 14 ∷ []
unfolding xor_delta_stride xor_from
xor_delta_stride-runs = refl

xor_delta_stride_inverse-xor_delta_stride_example :
    xor_delta_stride_inverse (xor_delta_stride runs 2) 2 ≡ runs
xor_delta_stride_inverse-xor_delta_stride_example =
    xor_delta_stride_inverse-xor_delta_stride runs 2 (omega arith)

arith_delta_inverse-arith_delta_example : arith_delta_inverse (arith_delta runs) ≡ runs
arith_delta_inverse-arith_delta_example = arith_delta_inverse-arith_delta runs (ground arith)

split_lanes-runs : split_lanes runs 4 ≡ (5 ∷ 7 ∷ []) ∷ (5 ∷ 9 ∷ []) ∷ (5 ∷ []) ∷ (7 ∷ []) ∷ []
unfolding split_lanes split_from push
split_lanes-runs = refl

merge_lanes-split_lanes_example : merge_lanes (split_lanes runs 4) 6 ≡ returns runs
merge_lanes-split_lanes_example = merge_lanes-split_lanes runs 4 (omega arith)

-- The sorts for old payloads do nothing here.
delta_ans_decode-delta_ans_encode_example :
    (payload : Bytes) × (delta_ans_encode milli flat runs ≡ returns (ok payload))
    × (delta_ans_decode (λ order. order) (λ order. order) payload ≡ returns (ok runs))
delta_ans_decode-delta_ans_encode_example =
    delta_ans_decode-delta_ans_encode milli flat (λ order. order) (λ order. order) runs
      (ground arith) (omega arith)

delta_ans_encode-IsAccepted_example :
    (payload : Bytes) × (delta_ans_encode milli flat runs ≡ returns (ok payload))
    × IsAccepted runs payload
delta_ans_encode-IsAccepted_example =
    delta_ans_encode-IsAccepted milli flat runs (ground arith) (omega arith) (omega arith)
