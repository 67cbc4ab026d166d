-- ===== src/Lz77/Serial/RoundTrip.antt =====
-- The tokens are read back from their bytes, where their fields fit the packed word.
use nexcomp.Base.{
  ℕ, zero, suc, ◌+◌, ◌-◌, ◌*◌, ◌/◌, ◌^◌, ◌≤◌, ◌<◌, ◌≡◌, refl, ap, ap₂, ◌∙◌, arith, List, [], ◌∷◌,
  ◌++◌, append_assoc, append-nil, length, ok, All, if-false, le→ltb,
}
use nexcomp.Base.Words.{Bytes, u8, u32, IsByte}
use nexcomp.Base.Bits.{bit_and, bit_and_mask, bit_or_fields, join_be32}
use native.Mathlib.Nat.{le_refl}
use nexcomp.Lz77.{Token, literal, match, max_window}
use nexcomp.Lz77.Serial.{
  pack, serialize_token, serialize, packed_at, unpack, deserialize_loop, deserialize,
}

-- The fields of the packed word: 22 bits of offset, 10 bits of length above the minimum.
abbrev pub Fits : Token → Type 0
Fits (literal b) = IsByte b
Fits (match offset len) = (offset < 2 ^ 22) × (3 ≤ len) × (len ≤ 1026)

pack-eq :
    (offset len : ℕ)
    → offset < 2 ^ 22
    → 3 ≤ len
    → len ≤ 1026
    → pack offset len ≡ offset * 1024 + (len - 3)
unfolding pack
pack-eq offset len h lo hi =
    let e : u32 (offset * 2 ^ 10) ≡ offset * 2 ^ 10 = omega arith in
    let m : bit_and (len - 3) 0x3ff ≡ len - 3 = bit_and_mask 10 (len - 3) ∙ omega arith in
    rw (e, m) (bit_or_fields 10 offset (len - 3) (omega arith))

packed_at-eq :
    (p : ℕ) (rest : Bytes)
    → p < 2 ^ 32
    → packed_at (u8 (p / 2 ^ 24) ∷ u8 (p / 2 ^ 16) ∷ u8 (p / 2 ^ 8) ∷ u8 p ∷ rest) ≡ p
unfolding packed_at
packed_at-eq p rest h =
    join_be32 (u8 (p / 2 ^ 24)) (u8 (p / 2 ^ 16)) (u8 (p / 2 ^ 8)) (u8 p) (omega arith)
      (omega arith) (omega arith)
    ∙ omega arith

unpack-pack :
    (offset len : ℕ)
    → offset < 2 ^ 22
    → 3 ≤ len
    → len ≤ 1026
    → unpack (pack offset len) ≡ match offset len
unfolding unpack
unpack-pack offset len h lo hi =
    let e : pack offset len ≡ offset * 1024 + (len - 3) = pack-eq offset len h lo hi in
    let m : bit_and (pack offset len) 0x3ff ≡ len - 3 =
      bit_and_mask 10 (pack offset len) ∙ omega arith in
    ap₂ match (omega arith) (rw m (omega arith))

pack-lt : (offset len : ℕ) → offset < 2 ^ 22 → 3 ≤ len → len ≤ 1026 → pack offset len < 2 ^ 32
pack-lt offset len h lo hi = omega (arith, pack-eq offset len h lo hi)

-- One round of the loop on the bytes of one token.
deserialize_step :
    (fuel pos : ℕ) (token : Token) (rest : Bytes) (tokens : List Token)
    → Fits token
    → (pos' : ℕ) × (deserialize_loop (suc fuel) pos (serialize_token token ++ rest) tokens
        ≡ deserialize_loop fuel pos' rest (tokens ++ (token ∷ [])))
unfolding deserialize_loop serialize_token
deserialize_step fuel pos (literal b) rest tokens h =
    (pos + 2, if-false _ _ (le→ltb (length (b ∷ rest)) 1 (omega arith)))
deserialize_step fuel pos (match offset len) rest tokens (h, lo, hi) =
    let p = pack offset len in
    let body = u8 (p / 2 ^ 24) ∷ u8 (p / 2 ^ 16) ∷ u8 (p / 2 ^ 8) ∷ u8 p ∷ rest in
    let e : packed_at body ≡ p = packed_at-eq p rest (pack-lt offset len h lo hi) in
    (
      pos + 5,
      if-false _ _ (le→ltb (length body) 4 (omega arith))
          ∙ ap (λ t. deserialize_loop fuel (pos + 5) rest (tokens ++ (t ∷ [])))
              (ap unpack e ∙ unpack-pack offset len h lo hi),
    )

grows : (token : Token) (rest : Bytes) → length rest < length (serialize_token token ++ rest)
unfolding serialize_token
grows (literal b) rest = omega arith
grows (match offset len) rest = omega arith

deserialize_loop-serialize :
    (fuel pos : ℕ) (tokens done : List Token)
    → length (serialize tokens) ≤ fuel
    → All Fits tokens
    → deserialize_loop fuel pos (serialize tokens) done ≡ ok (done ++ tokens)
unfolding serialize
deserialize_loop-serialize fuel pos [] done hf h = rw append-nil (unfold deserialize_loop in refl)
deserialize_loop-serialize zero pos (token ∷ tokens) done hf h =
    absurd (omega (arith, grows token (serialize tokens)))
deserialize_loop-serialize (suc fuel) pos (token ∷ tokens) done hf (ht, hts) =
    let (pos', e) = deserialize_step fuel pos token (serialize tokens) done ht in
    e
    ∙ deserialize_loop-serialize fuel pos' tokens (done ++ (token ∷ []))
        (omega (arith, grows token (serialize tokens))) hts
    ∙ ap ok (append_assoc done (token ∷ []) tokens)

-- A token stream whose offsets fit 22 bits and whose lengths lie between 3 and 1026 is read back
-- from its bytes.
pub deserialize-serialize :
    (tokens : List Token) → All Fits tokens → deserialize (serialize tokens) ≡ ok tokens
unfolding deserialize
deserialize-serialize tokens h =
    deserialize_loop-serialize (length (serialize tokens)) 0 tokens [] (le_refl _) h

-- A match of legal length at the distance of the whole window, 2 ^ 22, comes back from its bytes
-- with offset 0.
pub deserialize-serialize_window :
    (len : ℕ)
    → 3 ≤ len
    → len ≤ 258
    → deserialize (serialize (match max_window len ∷ [])) ≡ ok (match 0 len ∷ [])
unfolding deserialize serialize deserialize_loop serialize_token
deserialize-serialize_window len lo hi =
    let m : bit_and (len - 3) 0x3ff ≡ len - 3 = bit_and_mask 10 (len - 3) ∙ omega arith in
    let e : pack max_window len ≡ len - 3 =
      unfold pack in rw m (bit_or_fields 10 0 (len - 3) (omega arith) ∙ omega arith) in
    let low : bit_and (len - 3) 0x3ff ≡ len - 3 = m in
    ap (λ t. ok (t ∷ []))
      (ap unpack (packed_at-eq (pack max_window len) [] (omega arith))
        ∙ rw e (unfold unpack in ap₂ match (omega arith) (rw low (omega arith))))
