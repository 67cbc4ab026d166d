-- ===== src/Codecs/Delta/Payload/Bytewise.antt =====
-- The residuals and the lanes of src/codecs/delta_ans.rs are bytes, and as long as they should be.
use nexcomp.Base.{
  ℕ, zero, suc, ◌+◌, ◌-◌, ◌%◌, ◌≤◌, ◌≡◌, refl, ap, ◌∙◌, arith, Bool-cases, inl, inr, List, [], ◌∷◌,
  length, length-append, length-replicate, get_or, All, All-append, replicate, ltb,
}
use nexcomp.Base.Words.{Bytes, IsByte, IsBytes}
use nexcomp.Base.Bits.{bit_xor-lt}
use nexcomp.Lz77.Huffman.Bits.Reading.{get_or-IsByte}
use nexcomp.Codecs.Delta.Lanes.{length-split_from}
use nexcomp.Codecs.Delta.{
  xor_from, xor_delta_stride, differences, arith_delta, push, split_from, split_lanes,
}

xor_from-IsBytes :
    (stride : ℕ) (bytes : Bytes) (i : ℕ) (rest : Bytes)
    → IsBytes bytes
    → IsBytes rest
    → IsBytes (xor_from stride bytes i rest)
unfolding xor_from
xor_from-IsBytes stride bytes i [] h h' = tt
xor_from-IsBytes stride bytes i (b ∷ rest) h (hb, h') =
    let more = xor_from-IsBytes stride bytes (i + 1) rest h h' in
    elim (Bool-cases (ltb i stride)) [
      | inl t ↦ rw t (hb, more)
      | inr t ↦ rw t (
        bit_xor-lt 8 b (get_or bytes (i - stride) 0) hb (get_or-IsByte bytes (i - stride) h),
        more,
      )
    ]

length-xor_from :
    (stride : ℕ) (bytes : Bytes) (i : ℕ) (rest : Bytes)
    → length (xor_from stride bytes i rest) ≡ length rest
unfolding xor_from
length-xor_from stride bytes i [] = refl
length-xor_from stride bytes i (b ∷ rest) = ap suc (length-xor_from stride bytes (i + 1) rest)

pub xor_delta_stride-IsBytes :
    (bytes : Bytes) (stride : ℕ) → IsBytes bytes → IsBytes (xor_delta_stride bytes stride)
unfolding xor_delta_stride
xor_delta_stride-IsBytes bytes stride h = xor_from-IsBytes stride bytes 0 bytes h h

pub length-xor_delta_stride :
    (bytes : Bytes) (stride : ℕ) → length (xor_delta_stride bytes stride) ≡ length bytes
unfolding xor_delta_stride
length-xor_delta_stride bytes stride = length-xor_from stride bytes 0 bytes

differences-IsBytes : (previous : ℕ) (bytes : Bytes) → IsBytes (differences previous bytes)
unfolding differences
differences-IsBytes previous [] = tt
differences-IsBytes previous (b ∷ bytes) = (omega arith, differences-IsBytes b bytes)

length-differences :
    (previous : ℕ) (bytes : Bytes) → length (differences previous bytes) ≡ length bytes
unfolding differences
length-differences previous [] = refl
length-differences previous (b ∷ bytes) = ap suc (length-differences b bytes)

pub arith_delta-IsBytes : (bytes : Bytes) → IsBytes bytes → IsBytes (arith_delta bytes)
unfolding arith_delta
arith_delta-IsBytes [] h = tt
arith_delta-IsBytes (b ∷ bytes) (hb, h) = (hb, differences-IsBytes b bytes)

pub length-arith_delta : (bytes : Bytes) → length (arith_delta bytes) ≡ length bytes
unfolding arith_delta
length-arith_delta [] = refl
length-arith_delta (b ∷ bytes) = ap suc (length-differences b bytes)

-- A lane of at most `n` bytes.
abbrev pub IsLane : ℕ → Bytes → Type 0
IsLane n lane = IsBytes lane × (length lane ≤ n)

longer_lanes : (n : ℕ) (out : List Bytes) → All (IsLane n) out → All (IsLane (suc n)) out
longer_lanes n [] h = tt
longer_lanes n (l ∷ out) ((hl, size), h) = ((hl, omega arith), longer_lanes n out h)

push-AreLanes :
    (lane b n : ℕ) (out : List Bytes)
    → IsByte b
    → All (IsLane n) out
    → All (IsLane (suc n)) (push lane b out)
unfolding push
push-AreLanes lane b n [] hb h = tt
push-AreLanes zero b n (l ∷ out) hb ((hl, size), h) = (
  (All-append IsByte l (b ∷ []) hl (hb, tt), omega (arith, length-append {0} l (b ∷ []))),
  longer_lanes n out h,
)
push-AreLanes (suc lane) b n (l ∷ out) hb ((hl, size), h) =
    ((hl, omega arith), push-AreLanes lane b n out hb h)

split_from-AreLanes :
    (lanes idx n : ℕ) (bytes : Bytes) (out : List Bytes)
    → IsBytes bytes
    → All (IsLane n) out
    → All (IsLane (n + length bytes)) (split_from lanes idx bytes out)
unfolding split_from
split_from-AreLanes lanes idx n [] out h k = let e : n + 0 ≡ n = omega arith in rw e k
split_from-AreLanes lanes idx n (b ∷ bytes) out (hb, h) k =
    let e : n + suc (length bytes) ≡ suc n + length bytes = omega arith in
    rw e (
      split_from-AreLanes lanes (idx + 1) (suc n) bytes (push (idx % lanes) b out) h
        (push-AreLanes (idx % lanes) b n out hb k))

empty_lanes : (n : ℕ) → All (IsLane 0) (replicate n [])
empty_lanes zero = tt
empty_lanes (suc n) = ((tt, omega arith), empty_lanes n)

pub split_lanes-AreLanes :
    (bytes : Bytes) (lanes : ℕ)
    → IsBytes bytes
    → All (IsLane (length bytes)) (split_lanes bytes lanes)
unfolding split_lanes
split_lanes-AreLanes bytes lanes h =
    let e : 0 + length bytes ≡ length bytes = omega arith in
    let lanes_lem =
      split_from-AreLanes lanes 0 0 bytes (replicate lanes []) h (empty_lanes lanes) in
    rw e at lanes_lem

pub length-split_lanes : (bytes : Bytes) (lanes : ℕ) → length (split_lanes bytes lanes) ≡ lanes
unfolding split_lanes
length-split_lanes bytes lanes =
    length-split_from lanes 0 bytes (replicate lanes []) ∙ length-replicate {A = Bytes} lanes []
