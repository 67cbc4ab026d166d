-- ===== src/Codecs/Bcj/RoundTrip.antt =====
-- The filter keeps the length and is undone exactly.
use nexcomp.Base.{
  ℕ, ◌+◌, ◌^◌, ◌≤◌, ◌<◌, ◌≡◌, refl, ap, ◌∙◌, arith, inl, inr, Bool-cases, true, false, [], ◌∷◌,
  ◌++◌, length, length-append, All-append,
}
use nexcomp.Base.Words.{
  Bytes, IsByte, IsBytes, to_le-IsBytes, to_le, of_le, length-to_le, of_le-to_le, to_le-of_le,
  of_le-lt,
}
use nexcomp.Codecs.Bcj.{is_branch, to_absolute, to_relative, convert, bcj_encode, bcj_decode}

length-convert :
    (target : ℕ → ℕ → ℕ) (i : ℕ) (bytes : Bytes) → length (convert target i bytes) ≡ length bytes
unfolding convert
length-convert target i (op ∷ b0 ∷ b1 ∷ b2 ∷ b3 ∷ rest) = ground (
  arith,
  length-append (to_le 4 (target i (of_le (b0 ∷ b1 ∷ b2 ∷ b3 ∷ [])))) (convert target (i + 5) rest),
  length-to_le 4 (target i (of_le (b0 ∷ b1 ∷ b2 ∷ b3 ∷ []))),
  length-convert target (i + 5) rest,
  length-convert target (i + 1) (b0 ∷ b1 ∷ b2 ∷ b3 ∷ rest),
)
length-convert target i [] = refl
length-convert target i rest = refl

-- Five bytes or more, with the first one named.
record Split (xs : Bytes) : Type 0 where
  b0 : ℕ
  b1 : ℕ
  b2 : ℕ
  b3 : ℕ
  rest : Bytes
  whole : xs ≡ b0 ∷ b1 ∷ b2 ∷ b3 ∷ rest

quarters : (xs : Bytes) → 4 ≤ length xs → Split xs
quarters (b0 ∷ b1 ∷ b2 ∷ b3 ∷ rest) h = record {
  b0 = b0;
  b1 = b1;
  b2 = b2;
  b3 = b3;
  rest = rest;
  whole = refl;
}
quarters [] h = absurd (omega arith)
quarters (a ∷ []) h = absurd (omega arith)
quarters (a ∷ b ∷ []) h = absurd (omega arith)
quarters (a ∷ b ∷ c ∷ []) h = absurd (omega arith)

convert_kept :
    (target : ℕ → ℕ → ℕ) (i op : ℕ) (xs : Bytes)
    → 4 ≤ length xs
    → is_branch op ≡ false
    → convert target i (op ∷ xs) ≡ op ∷ convert target (i + 1) xs
convert_kept target i op xs h other =
    let s = quarters xs h in rw s.whole (unfold convert in rw other refl)

convert_replaced :
    (target : ℕ → ℕ → ℕ) (i op new : ℕ) (rest : Bytes)
    → is_branch op ≡ true
    → new < 2 ^ 32
    → convert target i (op ∷ (to_le 4 new ++ rest))
      ≡ op ∷ (to_le 4 (target i new) ++ convert target (i + 5) rest)
convert_replaced target i op new rest branch h =
    let e : of_le (to_le 4 new) ≡ new = of_le-to_le 4 new (omega arith) in
    unfold convert to_le in
    rw branch (ap (λ t. op ∷ (to_le 4 (target i t) ++ convert target (i + 5) rest)) e)

relative-absolute : (i rel : ℕ) → rel < 2 ^ 32 → to_relative i (to_absolute i rel) ≡ rel
relative-absolute i rel h = omega arith

replaced_at :
    (i op b0 b1 b2 b3 : ℕ) (rest : Bytes)
    → is_branch op ≡ true
    → convert to_absolute i (op ∷ b0 ∷ b1 ∷ b2 ∷ b3 ∷ rest)
      ≡ op
        ∷ (to_le 4 (to_absolute i (of_le (b0 ∷ b1 ∷ b2 ∷ b3 ∷ [])))
            ++ convert to_absolute (i + 5) rest)
replaced_at i op b0 b1 b2 b3 rest branch = unfold convert in rw branch refl

convert_undo :
    (i : ℕ) (bytes : Bytes)
    → IsBytes bytes
    → convert to_relative i (convert to_absolute i bytes) ≡ bytes
convert_undo i (op ∷ b0 ∷ b1 ∷ b2 ∷ b3 ∷ rest) (h, (h0, (h1, (h2, (h3, hr))))) =
    let old = b0 ∷ b1 ∷ b2 ∷ b3 ∷ [] in
    let new = to_absolute i (of_le old) in
    let back : to_le 4 (to_relative i new) ≡ old =
      ap (to_le 4)
        (relative-absolute i (of_le old) (omega (arith, of_le-lt old (h0, (h1, (h2, (h3, tt)))))))
      ∙ to_le-of_le old (h0, (h1, (h2, (h3, tt)))) in
    elim (Bool-cases (is_branch op)) [
      | inl branch ↦
          ap (convert to_relative i) (replaced_at i op b0 b1 b2 b3 rest branch)
          ∙ convert_replaced to_relative i op new (convert to_absolute (i + 5) rest) branch
              (omega arith)
          ∙ rw (back, convert_undo (i + 5) rest hr) refl
      | inr other ↦
          ap (convert to_relative i)
            (convert_kept to_absolute i op (b0 ∷ b1 ∷ b2 ∷ b3 ∷ rest) (omega arith) other)
          ∙ convert_kept to_relative i op (convert to_absolute (i + 1) (b0 ∷ b1 ∷ b2 ∷ b3 ∷ rest))
              (omega (arith, length-convert to_absolute (i + 1) (b0 ∷ b1 ∷ b2 ∷ b3 ∷ rest))) other
          ∙ ap (λ t. op ∷ t)
              (convert_undo (i + 1) (b0 ∷ b1 ∷ b2 ∷ b3 ∷ rest) (h0, (h1, (h2, (h3, hr)))))
    ]
convert_undo i [] h = unfold convert in refl
convert_undo i rest h = unfold convert in refl

-- Decoding what the filter encoded gives the bytes back.
pub bcj_decode-bcj_encode : (bytes : Bytes) → IsBytes bytes → bcj_decode (bcj_encode bytes) ≡ bytes
unfolding bcj_decode bcj_encode
bcj_decode-bcj_encode bytes h = convert_undo 0 bytes h

pub length-bcj_encode : (bytes : Bytes) → length (bcj_encode bytes) ≡ length bytes
unfolding bcj_encode
length-bcj_encode bytes = length-convert to_absolute 0 bytes

length-bcj_decode : (bytes : Bytes) → length (bcj_decode bytes) ≡ length bytes
unfolding bcj_decode
length-bcj_decode bytes = length-convert to_relative 0 bytes

convert-IsBytes :
    (target : ℕ → ℕ → ℕ) (i : ℕ) (bytes : Bytes) → IsBytes bytes → IsBytes (convert target i bytes)
unfolding convert
convert-IsBytes target i (op ∷ b0 ∷ b1 ∷ b2 ∷ b3 ∷ rest) (h, (h0, (h1, (h2, (h3, hr))))) =
    let new = to_le 4 (target i (of_le (b0 ∷ b1 ∷ b2 ∷ b3 ∷ []))) in
    elim (Bool-cases (is_branch op)) [
      | inl branch ↦ rw branch (
        h,
        All-append IsByte new (convert target (i + 5) rest) (to_le-IsBytes 4 _)
            (convert-IsBytes target (i + 5) rest hr),
      )
      | inr other ↦
          rw other (
            h,
            convert-IsBytes target (i + 1) (b0 ∷ b1 ∷ b2 ∷ b3 ∷ rest) (h0, (h1, (h2, (h3, hr)))),
          )
    ]
convert-IsBytes target i [] h = tt
convert-IsBytes target i rest h = h

pub bcj_encode-IsBytes : (bytes : Bytes) → IsBytes bytes → IsBytes (bcj_encode bytes)
unfolding bcj_encode
bcj_encode-IsBytes bytes h = convert-IsBytes to_absolute 0 bytes h
