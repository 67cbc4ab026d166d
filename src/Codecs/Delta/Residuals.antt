-- ===== src/Codecs/Delta/Residuals.antt =====
-- The deltas are undone by their inverses.
use nexcomp.Base.{
  ℕ, zero, suc, ◌+◌, ◌-◌, ◌<◌, ◌≡◌, refl, sym, ap, ◌∙◌, arith, inl, inr, Bool-cases, ltb, ltb→le,
  [], ◌∷◌, ◌++◌, append_assoc, append-nil, if◌then◌else◌, length, length-append, get_or,
}
use nexcomp.Base.Words.{Bytes, IsBytes, u8}
use nexcomp.Base.Bits.{bit_xor, bit_xor_undo}
use nexcomp.Codecs.Delta.{
  xor_from, xor_delta_stride, xor_back, xor_delta_stride_inverse, differences, arith_delta,
  running_sums, arith_delta_inverse,
}

get_or_front : (xs ys : Bytes) (i : ℕ) → i < length xs → get_or (xs ++ ys) i 0 ≡ get_or xs i 0
get_or_front [] ys i h = absurd (omega arith)
get_or_front (x ∷ xs) ys zero h = refl
get_or_front (x ∷ xs) ys (suc i) h = get_or_front xs ys i (omega arith)

-- The byte that the inverse appends.
back_byte :
    (stride b : ℕ) (out rest : Bytes)
    → 0 < stride
    → let i = length out in
      let d = if ltb i stride then b else bit_xor b (get_or (out ++ rest) (i - stride) 0) in
      (if ltb i stride then d else bit_xor d (get_or out (i - stride) 0)) ≡ b
back_byte stride b out rest pos = elim (Bool-cases (ltb (length out) stride)) [
  | inl t ↦ rw t refl
  | inr t ↦
      let before =
        get_or_front out rest (length out - stride) (omega (arith, ltb→le (length out) stride t)) in
      rw (t, before) (bit_xor_undo b (get_or out (length out - stride) 0))
]

xor_loops :
    (stride : ℕ) (out rest : Bytes)
    → 0 < stride
    → xor_back stride (length out) (xor_from stride (out ++ rest) (length out) rest) out
      ≡ out ++ rest
unfolding xor_from xor_back
xor_loops stride out [] pos = sym (append-nil out)
xor_loops stride out (b ∷ rest) pos =
    let longer : length out + 1 ≡ length (out ++ (b ∷ [])) =
      omega (arith, length-append out (b ∷ [])) in
    let joined : out ++ (b ∷ rest) ≡ (out ++ (b ∷ [])) ++ rest =
      sym (append_assoc out (b ∷ []) rest) in
    ap
      (λ (o : ℕ).
        xor_back stride (length out + 1) (xor_from stride (out ++ (b ∷ rest)) (length out + 1) rest)
          (out ++ (o ∷ [])))
      (back_byte stride b out (b ∷ rest) pos)
    ∙ rw (longer, joined) (xor_loops stride (out ++ (b ∷ [])) rest pos)

-- The exclusive-or delta of any positive stride is undone by its inverse.
pub xor_delta_stride_inverse-xor_delta_stride :
    (bytes : Bytes) (stride : ℕ)
    → 0 < stride
    → xor_delta_stride_inverse (xor_delta_stride bytes stride) stride ≡ bytes
unfolding xor_delta_stride xor_delta_stride_inverse
xor_delta_stride_inverse-xor_delta_stride bytes stride pos = xor_loops stride [] bytes pos

sums_of_differences :
    (previous : ℕ) (bytes : Bytes)
    → previous < 256
    → IsBytes bytes
    → running_sums previous (differences previous bytes) ≡ bytes
unfolding running_sums differences
sums_of_differences previous [] h hs = refl
sums_of_differences previous (b ∷ bytes) h (hb, hs) =
    let e : u8 (u8 (b + 256 - previous) + previous) ≡ b = omega arith in
    rw (e, sums_of_differences b bytes hb hs) refl

-- The arithmetic delta of bytes is undone by its inverse.
pub arith_delta_inverse-arith_delta :
    (bytes : Bytes) → IsBytes bytes → arith_delta_inverse (arith_delta bytes) ≡ bytes
unfolding arith_delta_inverse arith_delta
arith_delta_inverse-arith_delta [] h = refl
arith_delta_inverse-arith_delta (b ∷ bytes) (hb, hs) = rw (sums_of_differences b bytes hb hs) refl
