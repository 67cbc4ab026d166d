-- ===== src/Codecs/Delta/Payload/RoundTrip.antt =====
-- What `delta_ans_encode` returns, `delta_ans_decode` turns back into the bytes.
use nexcomp.Base.{
  ℕ, suc, ◌+◌, ◌*◌, ◌^◌, ◌≤◌, ◌<◌, ◌≡◌, refl, ap, ◌∙◌, arith, true, false, List, [], ◌∷◌, ◌++◌,
  append_assoc, length, length-append, take-append_length, drop-append_length, All, le→ltb, ne→==,
  ◌==◌, returns, ok, Bool-cases, inl, inr,
}
use mathlib.Core.Path.{subst}
use nexcomp.Base.Words.{Bytes, IsBytes, u32, to_le, of_le}
use nexcomp.Base.Bits.{bit_and, bit_or}
use nexcomp.Base.Frames.{word_length, word_value, take_word, drop_word}
use nexcomp.Codecs.Bcj.{Floats}
use nexcomp.Codecs.Block.{Logarithms}
use nexcomp.Entropy.Table.{RansTable, build_table, build_decode_table, sum}
use nexcomp.Entropy.Coder.{rans_decode}
use nexcomp.Entropy.Coder.Size.{rans_encode-size}
use nexcomp.Entropy.Normalize.{Fraction, normalize_freqs}
use nexcomp.Entropy.Counted.{rans_decode-normalize_freqs}
use nexcomp.Codecs.Delta.{xor_delta_stride, split_lanes, merge_lanes}
use nexcomp.Codecs.Delta.Lanes.{merge_lanes-split_lanes}
use nexcomp.Codecs.Delta.Residuals.{
  xor_delta_stride_inverse-xor_delta_stride, arith_delta_inverse-arith_delta,
}
use nexcomp.Codecs.Delta.Payload.{
  num_lanes, pinned_table, lane_counts, write_counts, encode_lane, encode_lanes, candidates,
  read_counts, undo_delta, lane_entropy, lightest, pick, delta_ans_encode, decode_coded,
  decode_lane, decode_lanes, delta_ans_decode,
}
use nexcomp.Codecs.Delta.Payload.Bytewise.{
  IsLane, xor_delta_stride-IsBytes, length-xor_delta_stride, arith_delta-IsBytes,
  length-arith_delta, split_lanes-AreLanes, length-split_lanes,
}
use nexcomp.Codecs.Delta.Payload.Counts.{
  lane_counts-AreCounts, lane_counts-sum, read_word-to_le, read_counts-write_counts,
}

module _ (descending ascending : List Fraction → List Fraction) where
  -- The counts and the length of the coded symbols are read in front of them.
  decode_lane-framed :
      (lane : Bytes) (enc_len : ℕ) (rest : Bytes)
      → IsBytes lane
      → length lane < 2 ^ 32
      → enc_len < 2 ^ 32
      → decode_lane descending ascending true (
          (to_le 4 (u32 (length lane)) ++ write_counts (lane_counts lane))
          ++ (to_le 4 (u32 enc_len) ++ rest))
        ≡ decode_coded descending ascending true (length lane) (lane_counts lane) enc_len rest
  unfolding decode_lane
  decode_lane-framed lane enc_len rest h short few =
      let counts = lane_counts lane in
      let behind = to_le 4 (u32 enc_len) ++ rest in
      let total : sum counts < 2 ^ 32 = omega (arith, lane_counts-sum lane h) in
      let read : read_counts 256 (write_counts counts ++ behind) ≡ returns (ok (counts, behind)) =
        subst (λ n. read_counts n (write_counts counts ++ behind) ≡ returns (ok (counts, behind)))
          (lane_counts-AreCounts lane h).size (read_counts-write_counts counts behind total) in
      rw
        (
          append_assoc (to_le 4 (u32 (length lane))) (write_counts counts) behind,
          read_word-to_le (length lane) (write_counts counts ++ behind) short,
          read,
          read_word-to_le enc_len rest few,
        )
        refl

  -- A lane that is coded, and decoded again whatever follows it.
  pub record IsCoded (lane : Bytes) : Type 0 where
    pub bytes : Bytes
    pub coded : Bytes
    pub encoded : encode_lane lane ≡ returns (ok bytes)
    pub framed :
        bytes
        ≡ (to_le 4 (u32 (length lane)) ++ write_counts (lane_counts lane))
          ++ (to_le 4 (u32 (length coded)) ++ coded)
    pub empty : length lane ≡ 0 → coded ≡ []
    pub small : length coded ≤ 8 * length lane + 8
    pub decoded :
        (rest : Bytes)
        → decode_lane descending ascending true (bytes ++ rest) ≡ returns (ok (lane, rest))

  empty_lane : IsCoded []
  unfolding encode_lane decode_coded to_le
  empty_lane =
      let header = to_le 4 (u32 0) ++ write_counts (lane_counts []) in
      record {
        bytes = header ++ to_le 4 (u32 0);
        coded = [];
        encoded = refl;
        framed = refl;
        empty = λ e. refl;
        small = omega arith;
        decoded = λ rest.
            ap (decode_lane descending ascending true) (append_assoc header (to_le 4 (u32 0)) rest)
            ∙ decode_lane-framed [] 0 rest tt (omega arith) (omega arith);
      }

  decode_coded-some :
      (lane enc rest : Bytes) (freqs : List ℕ) (table : RansTable)
      → 0 < length lane
      → normalize_freqs (lane_counts lane) 256 ≡ returns freqs
      → build_table freqs ≡ ok table
      → rans_decode enc (build_decode_table table) (length lane) ≡ ok lane
      → decode_coded descending ascending true
          (length lane)
          (lane_counts lane)
          (length enc)
          (enc ++ rest)
        ≡ returns (ok (lane, rest))
  unfolding decode_coded
  decode_coded-some lane enc rest freqs table pos normalized built decoded =
      rw
        (
          ne→== (length lane) 0 (omega arith),
          le→ltb (length (enc ++ rest)) (length enc) (omega (arith, length-append {0} enc rest)),
          normalized,
          built,
          take-append_length enc rest,
          drop-append_length enc rest,
          decoded,
        )
        refl

  some_lane :
      (b : ℕ) (lane : Bytes) → IsBytes (b ∷ lane) → length (b ∷ lane) < 2 ^ 28 → IsCoded (b ∷ lane)
  unfolding encode_lane
  some_lane b lane h short =
      let whole = b ∷ lane in
      let counts = lane_counts whole in
      let c = lane_counts-AreCounts whole h in
      let total = lane_counts-sum whole h in
      let (freqs, table, enc, normalized, built, encoded, decoded) =
        rans_decode-normalize_freqs counts whole (omega (arith, c.size)) (omega (arith, total))
          (omega (arith, total)) (λ e. cc) c.counted in
      let normalized' : normalize_freqs counts 256 ≡ returns freqs =
        subst (λ n. normalize_freqs counts n ≡ returns freqs) c.size normalized in
      let size = rans_encode-size whole table enc encoded in
      let header = to_le 4 (u32 (length whole)) ++ write_counts counts in
      let word = to_le 4 (u32 (length enc)) in
      record {
        bytes = header ++ (word ++ enc);
        coded = enc;
        framed = refl;
        empty = λ e. absurd (omega arith);
        small = size;
        encoded = rw (ne→== (length whole) 0 (omega arith), normalized', built, encoded) refl;
        decoded = λ rest.
            ap (decode_lane descending ascending true) (
              append_assoc header (word ++ enc) rest
              ∙ ap (λ t. header ++ t) (append_assoc word enc rest))
            ∙ decode_lane-framed whole (length enc) (enc ++ rest) h (omega arith)
                (omega (arith, size))
            ∙ decode_coded-some whole enc rest freqs table (omega arith) normalized' built decoded;
      }

  pub any_lane : (lane : Bytes) → IsBytes lane → length lane < 2 ^ 28 → IsCoded lane
  any_lane [] h short = empty_lane
  any_lane (b ∷ lane) h short = some_lane b lane h short

  all_lanes :
      (n : ℕ) (lanes : List Bytes)
      → n < 2 ^ 28
      → All (IsLane n) lanes
      → (bytes : Bytes) × (encode_lanes lanes ≡ returns (ok bytes))
        × (decode_lanes descending ascending (length lanes) true bytes ≡ returns (ok lanes))
  unfolding encode_lanes decode_lanes
  all_lanes n [] short h = ([], refl, refl)
  all_lanes n (lane ∷ lanes) short ((hl, size), h) =
      let first = any_lane lane hl (omega arith) in
      let (rest, encoded, decoded) = all_lanes n lanes short h in
      (first.bytes ++ rest, rw (first.encoded, encoded) refl, rw (first.decoded rest, decoded) refl)

-- A residual of the bytes, with the mode that undoes it.
pub record IsCandidate (bytes : Bytes) (c : ℕ × Bytes) : Type 0 where
  undone : undo_delta (bit_and (bit_or c.0 pinned_table) 0x7f) c.1 ≡ bytes
  flagged : (bit_and (bit_or c.0 pinned_table) pinned_table == 0) ≡ false
  pub is_bytes : IsBytes c.1
  pub size : length c.1 ≡ length bytes

candidates-AreCandidates :
    (bytes : Bytes) → IsBytes bytes → All (IsCandidate bytes) (candidates bytes)
unfolding candidates undo_delta
candidates-AreCandidates bytes h = (
  xor 0 1 (xor_delta_stride_inverse-xor_delta_stride bytes 1 (omega arith)) refl,
  (
    record {
      undone = arith_delta_inverse-arith_delta bytes h;
      flagged = refl;
      is_bytes = arith_delta-IsBytes bytes h;
      size = length-arith_delta bytes;
    },
    (
      xor 2 2 (xor_delta_stride_inverse-xor_delta_stride bytes 2 (omega arith)) refl,
      (
        xor 3 4 (xor_delta_stride_inverse-xor_delta_stride bytes 4 (omega arith)) refl,
        (record { undone = refl; flagged = refl; is_bytes = h; size = refl }, tt),
      ),
    ),
  ),
)
  where
    xor :
        (mode stride : ℕ)
        → undo_delta (bit_and (bit_or mode pinned_table) 0x7f) (xor_delta_stride bytes stride)
          ≡ bytes
        → (bit_and (bit_or mode pinned_table) pinned_table == 0) ≡ false
        → IsCandidate bytes (mode, xor_delta_stride bytes stride)
    xor mode stride undone flagged = record {
      undone = undone;
      flagged = flagged;
      is_bytes = xor_delta_stride-IsBytes bytes stride h;
      size = length-xor_delta_stride bytes stride;
    }

decoded_payload :
    (descending ascending : List Fraction → List Fraction) (bytes : Bytes) (chosen : ℕ × Bytes)
    (coded : Bytes) (lanes : List Bytes)
    → 0 < length bytes
    → length bytes < 2 ^ 32
    → IsCandidate bytes chosen
    → decode_lanes descending ascending 4 true coded ≡ returns (ok lanes)
    → merge_lanes lanes (length bytes) ≡ returns chosen.1
    → delta_ans_decode descending ascending
        (bit_or chosen.0 pinned_table ∷ num_lanes ∷ (to_le 4 (u32 (length bytes)) ++ coded))
      ≡ returns (ok bytes)
unfolding delta_ans_decode
decoded_payload descending ascending bytes chosen coded lanes pos short c decoded merged =
    let word = to_le 4 (u32 (length bytes)) in
    let long : 6 ≤ suc (suc (length (word ++ coded))) =
      omega (arith, length-append {0} word coded, word_length (length bytes)) in
    rw
      (
        le→ltb (suc (suc (length (word ++ coded)))) 6 long,
        take_word (length bytes) coded,
        drop_word (length bytes) coded,
        word_value (length bytes) short,
        ne→== (length bytes) 0 (omega arith),
        c.flagged,
        decoded,
        merged,
        c.undone,
      )
      refl

module _ {F : Type 0} (f : Floats F) (l : Logarithms F) where
  lightest-IsCandidate :
      (bytes : Bytes) (best : ℕ × Bytes) (others : List (ℕ × Bytes))
      → IsCandidate bytes best
      → All (IsCandidate bytes) others
      → IsCandidate bytes (lightest f l best others)
  unfolding lightest
  lightest-IsCandidate bytes best [] h k = h
  lightest-IsCandidate bytes best (c ∷ others) h (hc, k) =
      elim (Bool-cases (f.lt (lane_entropy f l c.1) (lane_entropy f l best.1))) [
        | inl t ↦ rw t (lightest-IsCandidate bytes c others hc k)
        | inr t ↦ rw t (lightest-IsCandidate bytes best others h k)
      ]

  pub pick-IsCandidate :
      (bytes : Bytes) → IsBytes bytes → IsCandidate bytes (pick f l (candidates bytes))
  unfolding pick candidates
  pick-IsCandidate bytes h =
      let (first, others) = candidates-AreCandidates bytes h in
      lightest-IsCandidate bytes _ _ first others

  -- Whatever the entropies are, by which the encoder chooses, and whatever the order of ties is
  -- that an old payload uses: fewer than 2^28 bytes are encoded without an error, and decoding
  -- gives them back.
  pub delta_ans_decode-delta_ans_encode :
      (descending ascending : List Fraction → List Fraction) (bytes : Bytes)
      → IsBytes bytes
      → length bytes < 2 ^ 28
      → (payload : Bytes) × (delta_ans_encode f l bytes ≡ returns (ok payload))
        × (delta_ans_decode descending ascending payload ≡ returns (ok bytes))
  unfolding delta_ans_encode delta_ans_decode of_le
  delta_ans_decode-delta_ans_encode descending ascending [] h short = (_, refl, refl)
  delta_ans_decode-delta_ans_encode descending ascending (b ∷ rest) h short =
      let bytes = b ∷ rest in
      let chosen = pick f l (candidates bytes) in
      let c = pick-IsCandidate bytes h in
      let lanes = split_lanes chosen.1 num_lanes in
      let (coded, encoded, decoded) =
        all_lanes descending ascending (length chosen.1) lanes (omega (arith, c.size))
          (split_lanes-AreLanes chosen.1 num_lanes c.is_bytes) in
      let four : length lanes ≡ 4 = length-split_lanes chosen.1 num_lanes in
      let decoded' : decode_lanes descending ascending 4 true coded ≡ returns (ok lanes) =
        subst (λ n. decode_lanes descending ascending n true coded ≡ returns (ok lanes)) four
          decoded in
      let merged : merge_lanes lanes (length bytes) ≡ returns chosen.1 =
        subst (λ n. merge_lanes lanes n ≡ returns chosen.1) c.size
          (merge_lanes-split_lanes chosen.1 num_lanes (omega arith)) in
      (
        bit_or chosen.0 pinned_table ∷ num_lanes ∷ (to_le 4 (u32 (length bytes)) ++ coded),
        rw (ne→== (length bytes) 0 (omega arith), encoded) refl,
        decoded_payload descending ascending bytes chosen coded lanes (omega arith) (omega arith) c
            decoded' merged,
      )
