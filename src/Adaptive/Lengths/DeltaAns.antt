-- ===== src/Adaptive/Lengths/DeltaAns.antt =====
-- The payload of src/codecs/delta_ans.rs, against what src/adaptive.rs asks of it.
use nexcomp.Base.{
  ℕ, ◌^◌, ◌≤◌, ◌<◌, ◌≡◌, refl, ◌∙◌, arith, true, List, [], ◌∷◌, ◌++◌, length, length-append, ne→==,
  eq→==, ok, returns,
}
use mathlib.Core.Path.{subst}
use nexcomp.Base.Words.{Bytes, IsBytes, u32, to_le}
use nexcomp.Base.Frames.{word_length}
use nexcomp.Base.Bits.{bit_or}
use nexcomp.Codecs.Bcj.{Floats}
use nexcomp.Codecs.Block.{Logarithms}
use nexcomp.Codecs.Delta.{split_lanes}
use nexcomp.Codecs.Delta.Payload.{num_lanes, pinned_table, candidates, pick, delta_ans_encode}
use nexcomp.Adaptive.{delta_ans, block_size}
use nexcomp.Adaptive.Lengths.Sizes.{AreFourLanes, split_lanes-AreFourLanes}
use nexcomp.Codecs.Delta.Payload.Bytewise.{split_lanes-AreLanes}
use nexcomp.Codecs.Delta.Payload.RoundTrip.{pick-IsCandidate}
use nexcomp.Adaptive.Lengths.{delta_lanes, delta_lengths, consistent, check_declared_lengths}
use nexcomp.Adaptive.Lengths.Framed.{word_at}
use nexcomp.Adaptive.Lengths.Lanes.{AreSized, shorter_lanes, lanes-AreDeclared}

sized-lanes :
    (n : ℕ) (lanes : List Bytes) → AreFourLanes n lanes → AreSized n 0 lanes × (length lanes ≡ 4)
unfolding AreSized
sized-lanes n lanes s = rw s.four (
  (
    s.first ∙ omega arith,
    (s.second ∙ omega arith, (s.third ∙ omega arith, (s.fourth ∙ omega arith, tt))),
  ),
  refl,
)

delta_lengths-declared :
    (mode n : ℕ) (coded : Bytes)
    → n < 2 ^ 32
    → delta_lanes 4 (mode ∷ num_lanes ∷ (to_le 4 (u32 n) ++ coded)) n 4 0 6 true ≡ ok true
    → check_declared_lengths delta_ans (mode ∷ num_lanes ∷ (to_le 4 (u32 n) ++ coded)) n ≡ ok tt
unfolding check_declared_lengths consistent delta_lengths
delta_lengths-declared mode n coded few h =
    rw (word_at (mode ∷ num_lanes ∷ []) coded n 2 refl few, eq→== n n refl, h) refl

-- What the container asks of a payload of this codec before it is decoded.
pub record IsAccepted (bytes payload : Bytes) : Type 0 where
  pub fits : length payload < 2 ^ 32
  pub declares : check_declared_lengths delta_ans payload (length bytes) ≡ ok tt

-- Whatever the entropies are, by which the encoder chooses: for one byte to a block of them, the
-- encoder returns a payload whose length fits 32 bits, and whose declared lengths, those of all
-- lanes and coded bytes included, pass the check of the container.
pub delta_ans_encode-IsAccepted :
    {F : Type 0} (f : Floats F) (l : Logarithms F) (bytes : Bytes)
    → IsBytes bytes
    → 0 < length bytes
    → length bytes ≤ block_size
    → (payload : Bytes) × (delta_ans_encode f l bytes ≡ returns (ok payload))
      × IsAccepted bytes payload
unfolding delta_ans_encode
delta_ans_encode-IsAccepted f l bytes h pos short =
    let n = length bytes in
    let chosen = pick f l (candidates bytes) in
    let c = pick-IsCandidate f l bytes h in
    let lanes = split_lanes chosen.1 num_lanes in
    let dealt : AreFourLanes n lanes =
      subst (λ k. AreFourLanes k lanes) c.size (split_lanes-AreFourLanes chosen.1) in
    let (sized, four) = sized-lanes n lanes dealt in
    let declared =
      lanes-AreDeclared (λ xs. xs) (λ xs. xs) n 0 lanes
        (shorter_lanes (length chosen.1) lanes (omega (arith, c.size))
          (split_lanes-AreLanes chosen.1 num_lanes c.is_bytes))
        sized in
    let mode = bit_or chosen.0 pinned_table in
    let word = to_le 4 (u32 n) in
    let before = mode ∷ num_lanes ∷ word in
    let six : length before ≡ 6 = omega (arith, word_length n) in
    let ready : delta_lanes 4 (before ++ declared.bytes) n 4 0 6 true ≡ ok true =
      subst (λ k. delta_lanes 4 (before ++ declared.bytes) n 4 0 k true ≡ ok true) six
        (subst (λ k. delta_lanes k (before ++ declared.bytes) n 4 0 (length before) true ≡ ok true)
          four (declared.declared before)) in
    (
      before ++ declared.bytes,
      rw (ne→== n 0 (omega arith), declared.encoded) refl,
      record {
        fits = omega (arith, length-append {0} before declared.bytes, six, declared.size, four);
        declares = delta_lengths-declared mode n declared.bytes (omega arith) ready;
      },
    )
