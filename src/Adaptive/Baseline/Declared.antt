-- ===== src/Adaptive/Baseline/Declared.antt =====
-- The lengths that a stream of blocks declares pass the check of src/adaptive.rs.
use nexcomp.Base.{
  ℕ, zero, suc, ◌+◌, ◌^◌, ◌≤◌, ◌<◌, ◌≡◌, refl, sym, ap, ap₂, ◌∙◌, arith, List, [], ◌++◌,
  append_assoc, length, length-append, length-take, length-drop, take, drop, All, All-take,
  All-drop, le→ltb, le→leb, eq→==, ok,
}
use mathlib.Core.Path.{subst}
use nexcomp.Base.Words.{Bytes, u32, to_le}
use nexcomp.Base.Frames.{word_length}
use nexcomp.Lz77.{Token}
use nexcomp.Lz77.Decoder.{saturating_add}
use nexcomp.Lz77.Huffman.Tokens.RoundTrip.{IsLegal}
use nexcomp.Lz77.Huffman.Blocks.{block_bits, encode_blocks, block_count, huffman_encode_blocked}
use nexcomp.Lz77.Huffman.Blocks.RoundTrip.{
  Fits, Fits-le, framed, framed_position, framed-append, block_count-Fits,
}
use nexcomp.Lz77.Huffman.Blocks.Size.{block_bits-size}
use nexcomp.Adaptive.{lz77_huffman}
use nexcomp.Adaptive.Reader.{u32_at}
use nexcomp.Adaptive.Lengths.Framed.{word_at}
use nexcomp.Adaptive.Lengths.{huffman_blocks, huffman_lengths, consistent, check_declared_lengths}

huffman_blocks-framed :
    (n : ℕ) (before rest : Bytes) (block : List Token) (sum : ℕ)
    → 0 < length block
    → length block < 2 ^ 28
    → All IsLegal block
    → huffman_blocks (suc n) (before ++ framed block rest) (length before) sum
      ≡ huffman_blocks n
          (before ++ framed block rest)
          (length before + 8 + length (block_bits block))
          (saturating_add sum (length block))
unfolding huffman_blocks
huffman_blocks-framed n before rest block sum pos few legal =
    let bits = block_bits block in
    let first = to_le 4 (u32 (length block)) in
    let second = to_le 4 (u32 (length bits)) in
    let size = block_bits-size block pos few legal in
    let at_first =
      word_at before (second ++ (bits ++ rest)) (length block) (length before) refl (omega arith) in
    let at_second =
      word_at (before ++ first) (bits ++ rest) (length bits) (length before + 4)
        (omega (arith, length-append {0} before first, word_length (length block)))
        (omega (arith, size)) in
    let room : length before + 8 + length bits ≤ length (before ++ framed block rest) = omega (
      arith,
      length-append {0} before (framed block rest),
      length-append {0} first (second ++ (bits ++ rest)),
      length-append {0} second (bits ++ rest),
      length-append {0} bits rest,
      word_length (length block),
      word_length (length bits),
    ) in
    rw
      (
        at_first,
        subst (λ b. u32_at b (length before + 4) ≡ ok (length bits))
            (append_assoc before first (second ++ (bits ++ rest))) at_second,
        le→ltb (length (before ++ framed block rest)) (length before + 8 + length bits) room,
      )
      refl

huffman_blocks-encode_blocks :
    (n size : ℕ) (before : Bytes) (tokens : List Token) (sum : ℕ)
    → 0 < size
    → Fits n size (length tokens)
    → sum + length tokens < 2 ^ 28
    → All IsLegal tokens
    → huffman_blocks n (before ++ encode_blocks n size tokens) (length before) sum
      ≡ ok (sum + length tokens)
unfolding encode_blocks
huffman_blocks-encode_blocks zero size before tokens sum h fits few legal =
    unfold huffman_blocks in ap ok (omega arith)
huffman_blocks-encode_blocks (suc n) size before tokens sum h (pos, fits) few legal =
    let block = take size tokens in
    let others = drop size tokens in
    let rest = encode_blocks n size others in
    let taken = length-take size tokens in
    let dropped = length-drop size tokens in
    let next : saturating_add sum (length block) ≡ sum + length block = omega arith in
    let head =
      huffman_blocks-framed n before rest block sum (omega arith) (omega arith)
        (All-take IsLegal size tokens legal) in
    let ih =
      huffman_blocks-encode_blocks n size (before ++ framed block []) others (sum + length block) h
        (rw dropped fits) (omega arith) (All-drop IsLegal size tokens legal) in
    head
    ∙ ap
        (λ s.
          huffman_blocks n (before ++ framed block rest)
            (length before + 8 + length (block_bits block)) s)
        next
    ∙ ap₂ (λ b k. huffman_blocks n b k (sum + length block)) (framed-append before rest block)
        (framed_position before block)
    ∙ ih
    ∙ ap ok (omega arith)

pub huffman_encode_blocked-declared :
    (tokens : List Token) (size expected : ℕ)
    → 0 < size
    → length tokens < 2 ^ 28
    → length tokens ≤ expected
    → All IsLegal tokens
    → check_declared_lengths lz77_huffman (huffman_encode_blocked tokens size) expected ≡ ok tt
unfolding check_declared_lengths consistent huffman_lengths huffman_encode_blocked
huffman_encode_blocked-declared tokens size expected h few enough legal =
    let l = length tokens in
    let n = block_count l size in
    let first = to_le 4 (u32 l) in
    let second = to_le 4 (u32 n) in
    let body = encode_blocks n size tokens in
    let fits = block_count-Fits l size h in
    let few_blocks : n ≤ l = Fits-le n size l h fits in
    let at_first = word_at [] (second ++ body) l 0 refl (omega arith) in
    let at_second = word_at first body n 4 (sym (word_length l)) (omega arith) in
    let start : length (first ++ second) ≡ 8 =
      omega (arith, length-append {0} first second, word_length l, word_length n) in
    let blocks =
      subst (λ b. huffman_blocks n b 8 0 ≡ ok (0 + l)) (append_assoc first second body)
        (subst (λ k. huffman_blocks n ((first ++ second) ++ body) k 0 ≡ ok (0 + l)) start
          (huffman_blocks-encode_blocks n size (first ++ second) tokens 0 h fits (omega arith)
            legal)) in
    rw (at_first, at_second, blocks, le→leb l expected enough, eq→== (0 + l) l (omega arith)) refl
