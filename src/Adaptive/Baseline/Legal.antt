-- ===== src/Adaptive/Baseline/Legal.antt =====
-- The tokens that src/lz77/encoder.rs produces are ones that src/lz77/huffman.rs codes.
use nexcomp.Base.{ℕ, ◌+◌, ◌≤◌, arith, List, [], ◌∷◌, length, All}
use nexcomp.Base.Words.{Bytes, IsBytes}
use nexcomp.Lz77.{Token, literal, match}
use nexcomp.Lz77.Cover.{Covers}
use nexcomp.Lz77.Encoder.{encode}
use nexcomp.Lz77.Encoder.RoundTrip.{encode-Covers}
use nexcomp.Lz77.Huffman.Tokens.RoundTrip.{IsLegal}
use nexcomp.Lz77.Huffman.Bits.Reading.{get_or-IsByte}

cover-IsLegal :
    (bytes : Bytes) (p q : ℕ) (tokens : List Token)
    → IsBytes bytes
    → Covers bytes p tokens q
    → All IsLegal tokens × (p + length tokens ≤ q)
cover-IsLegal bytes p q [] h c = (tt, omega arith)
cover-IsLegal bytes p q (literal b ∷ tokens) h (inside, here, c) =
    let (legal, size) = cover-IsLegal bytes (p + 1) q tokens h c in
    ((omega (arith, get_or-IsByte bytes p h), legal), omega arith)
cover-IsLegal bytes p q (match offset len ∷ tokens) h
      ((pos, back, inside, same), (near, least, most), c) =
    let (legal, size) = cover-IsLegal bytes (p + len) q tokens h c in
    ((((omega arith, omega arith), (least, most)), legal), omega arith)

pub encode-IsLegal :
    (bytes : Bytes)
    → IsBytes bytes
    → All IsLegal (encode bytes).0 × (length (encode bytes).0 ≤ length bytes)
encode-IsLegal bytes h =
    let (legal, size) =
      cover-IsLegal bytes 0 (length bytes) (encode bytes).0 h (encode-Covers bytes) in
    (legal, omega arith)
