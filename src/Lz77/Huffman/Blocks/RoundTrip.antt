-- ===== src/Lz77/Huffman/Blocks/RoundTrip.antt =====
-- A coded stream, in one block or in several, is decoded to the tokens it was made of.
use nexcomp.Base.{
  ℕ, zero, suc, ◌+◌, ◌-◌, ◌*◌, ◌/◌, ◌^◌, ◌≤◌, ◌<◌, ◌≡◌, refl, sym, ap, ap₂, ◌∙◌, arith, some, List,
  [], ◌∷◌, ◌++◌, length, length-append, length-take, length-drop, take, drop, take-append-drop,
  take-append_length, drop-append_length, append_assoc, append-nil, All, All-take, All-drop, ne→==,
  le→ltb, le→leb, returns,
}
use mathlib.Core.Path.{subst}
use native.Mathlib.Nat.{div-add-mod, mod-lt, mul_comm}
use nexcomp.Base.Words.{Bytes, u32, to_le}
use nexcomp.Base.Frames.{word_length, word_value, take_word, drop_word}
use nexcomp.Lz77.{Token}
use nexcomp.Lz77.Huffman.Bits.{new_reader}
use nexcomp.Lz77.Huffman.Bits.Transfer.{transfer_whole}
use nexcomp.Lz77.Huffman.Tokens.RoundTrip.{IsLegal}
use nexcomp.Lz77.Huffman.Blocks.{
  huffman_encode, huffman_decode, huffman_encode_blocked, huffman_decode_blocked_checked,
  block_bits, encode_blocks, block_count, get_range, u32_at, read_block, decode_blocks,
}
use nexcomp.Lz77.Huffman.Blocks.Written.{transfer_unchecked, transfer_block}

-- Fewer than 2^32 tokens that the encoder may produce, coded in one block, are decoded again.
pub huffman_decode-huffman_encode :
    (tokens : List Token)
    → length tokens < 2 ^ 32
    → All IsLegal tokens
    → huffman_decode (huffman_encode tokens) ≡ returns tokens
unfolding huffman_decode huffman_encode block_bits
huffman_decode-huffman_encode tokens few legal =
    let n = length tokens in
    let (r, found, size, bytes) =
      transfer_whole _ _ _ tokens (transfer_unchecked tokens few legal) in
    let bits = block_bits tokens in
    let long : 4 ≤ length (to_le 4 (u32 n) ++ bits) =
      omega (arith, length-append {0} (to_le 4 (u32 n)) bits, word_length n) in
    rw
      (
        le→ltb (length (to_le 4 (u32 n) ++ bits)) 4 long,
        take_word n bits,
        drop_word n bits,
        word_value n few,
        found,
      )
      refl

-- The part of a list that stands between two others.
pub get_range-append :
    (before middle after : Bytes) (pos len : ℕ)
    → pos ≡ length before
    → len ≡ length middle
    → get_range (before ++ (middle ++ after)) pos len ≡ some middle
unfolding get_range
get_range-append before middle after pos len e e' =
    let room : pos + len ≤ length (before ++ (middle ++ after)) =
      omega (arith, length-append {0} before (middle ++ after), length-append {0} middle after) in
    rw
      (
        le→leb (pos + len) (length (before ++ (middle ++ after))) room,
        e,
        e',
        drop-append_length before (middle ++ after),
        take-append_length middle after,
      )
      refl

pub u32_at-append :
    (before after : Bytes) (n pos : ℕ)
    → pos ≡ length before
    → n < 2 ^ 32
    → u32_at (before ++ (to_le 4 (u32 n) ++ after)) pos ≡ some n
unfolding u32_at
u32_at-append before after n pos e h =
    rw (get_range-append before (to_le 4 (u32 n)) after pos 4 e (sym (word_length n)))
      (ap some (word_value n h))

-- The number of blocks that `l` tokens take.
abbrev pub Fits : ℕ → ℕ → ℕ → Type 0
Fits zero size l = l ≡ 0
Fits (suc n) size l = (0 < l) × Fits n size (l - size)

suc-times : (n size : ℕ) → suc n * size ≡ n * size + size
suc-times n size = grind arith

between-Fits : (n size l : ℕ) → 0 < size → l ≤ n * size → n * size < l + size → Fits n size l
between-Fits zero size l h low high = omega arith
between-Fits (suc n) size l h low high = (
  omega (arith, suc-times n size),
  between-Fits n size (l - size) h (omega (arith, suc-times n size))
      (omega (arith, suc-times n size)),
)

pub block_count-Fits : (l size : ℕ) → 0 < size → Fits (block_count l size) size l
block_count-Fits zero size h = refl
block_count-Fits (suc l) size h =
    let a = suc l + size - 1 in
    let whole = div-add-mod a size in
    let below = mod-lt a h in
    let swap = mul_comm size (a / size) in
    rw (ne→== (suc l) 0 (omega arith))
      (between-Fits (a / size) size (suc l) h (omega arith) (omega arith))

pub Fits-le : (n size l : ℕ) → 0 < size → Fits n size l → n ≤ l
Fits-le zero size l h fits = omega arith
Fits-le (suc n) size l h (pos, fits) = omega (arith, Fits-le n size (l - size) h fits)

-- What one block of a stream is, with its two numbers in front.
abbrev pub framed : List Token → Bytes → Bytes
framed block rest =
    to_le 4 (u32 (length block))
    ++ (to_le 4 (u32 (length (block_bits block))) ++ (block_bits block ++ rest))

decode_blocks-framed :
    (n : ℕ) (before rest : Bytes) (block acc : List Token)
    → 0 < length block
    → length block < 2 ^ 28
    → All IsLegal block
    → decode_blocks (suc n) (before ++ framed block rest) (length before) acc
      ≡ decode_blocks n
          (before ++ framed block rest)
          (length before + 8 + length (block_bits block))
          (acc ++ block)
unfolding decode_blocks
decode_blocks-framed n before rest block acc pos few legal =
    let bits = block_bits block in
    let first = to_le 4 (u32 (length block)) in
    let second = to_le 4 (u32 (length bits)) in
    let (r, found, size, bytes) =
      transfer_whole _ _ _ block (transfer_block block (omega arith) (omega arith) legal) in
    let found' : read_block (length block) (new_reader bits) ≡ some (block, r) =
      unfold block_bits in found in
    let size' : 8 * length bits ≤ 1336 + 78 * length block + 7 = unfold block_bits in size in
    let at_first =
      u32_at-append before (second ++ (bits ++ rest)) (length block) (length before) refl
        (omega arith) in
    let at_second =
      u32_at-append (before ++ first) (bits ++ rest) (length bits) (length before + 4)
        (omega (arith, length-append {0} before first, word_length (length block)))
        (omega (arith, size')) in
    let at_bits =
      get_range-append ((before ++ first) ++ second) bits rest (length before + 8) (length bits)
        (omega (
          arith,
          length-append {0} (before ++ first) second,
          length-append {0} before first,
          word_length (length block),
          word_length (length bits),
        ))
        refl in
    rw
      (
        at_first,
        subst (λ b. u32_at b (length before + 4) ≡ some (length bits))
            (append_assoc before first (second ++ (bits ++ rest))) at_second,
        subst (λ b. get_range b (length before + 8) (length bits) ≡ some bits)
            (append_assoc (before ++ first) second (bits ++ rest)
              ∙ append_assoc before first (second ++ (bits ++ rest)))
            at_bits,
        found',
      )
      refl

pub framed_position :
    (before : Bytes) (block : List Token)
    → length before + 8 + length (block_bits block) ≡ length (before ++ framed block [])
framed_position before block =
    let bits = block_bits block in
    let first = to_le 4 (u32 (length block)) in
    let second = to_le 4 (u32 (length bits)) in
    omega (
      arith,
      length-append {0} before (first ++ (second ++ (bits ++ []))),
      length-append {0} first (second ++ (bits ++ [])),
      length-append {0} second (bits ++ []),
      length-append {0} bits [],
      word_length (length block),
      word_length (length bits),
    )

pub framed-append :
    (before rest : Bytes) (block : List Token)
    → before ++ framed block rest ≡ (before ++ framed block []) ++ rest
framed-append before rest block =
    let bits = block_bits block in
    let first = to_le 4 (u32 (length block)) in
    let second = to_le 4 (u32 (length bits)) in
    sym (
      append_assoc before (framed block []) rest
      ∙ ap (λ b. before ++ b)
          (append_assoc first (second ++ (bits ++ [])) rest
            ∙ ap (λ b. first ++ b)
                (append_assoc second (bits ++ []) rest
                  ∙ ap (λ b. second ++ (b ++ rest)) (append-nil bits))))

-- The loop reads the blocks that were written behind what it has passed.
decode_blocks-encode_blocks :
    (n size : ℕ) (before : Bytes) (tokens acc : List Token)
    → 0 < size
    → Fits n size (length tokens)
    → length tokens < 2 ^ 28
    → All IsLegal tokens
    → decode_blocks n (before ++ encode_blocks n size tokens) (length before) acc
      ≡ some (acc ++ tokens)
unfolding encode_blocks
decode_blocks-encode_blocks zero size before [] acc h fits few legal =
    unfold decode_blocks in ap some (sym (append-nil acc))
decode_blocks-encode_blocks zero size before (t ∷ tokens) acc h fits few legal =
    absurd (omega arith)
decode_blocks-encode_blocks (suc n) size before tokens acc h (pos, fits) few legal =
    let block = take size tokens in
    let others = drop size tokens in
    let rest = encode_blocks n size others in
    let taken = length-take size tokens in
    let dropped = length-drop size tokens in
    let head =
      decode_blocks-framed n before rest block acc (omega arith) (omega arith)
        (All-take IsLegal size tokens legal) in
    let ih =
      decode_blocks-encode_blocks n size (before ++ framed block []) others (acc ++ block) h
        (rw dropped fits) (omega arith) (All-drop IsLegal size tokens legal) in
    head
    ∙ ap₂ (λ b k. decode_blocks n b k (acc ++ block)) (framed-append before rest block)
        (framed_position before block)
    ∙ ih
    ∙ ap some (append_assoc acc block others ∙ ap (λ ts. acc ++ ts) (take-append-drop size tokens))

-- For a block size that is not zero, fewer than 2^28 tokens that the encoder may produce, coded in
-- blocks with their own codes, pass all checks and are decoded again.
pub huffman_decode_blocked_checked-huffman_encode_blocked :
    (tokens : List Token) (size : ℕ)
    → 0 < size
    → length tokens < 2 ^ 28
    → All IsLegal tokens
    → huffman_decode_blocked_checked (huffman_encode_blocked tokens size) ≡ some tokens
unfolding huffman_decode_blocked_checked huffman_encode_blocked
huffman_decode_blocked_checked-huffman_encode_blocked tokens size h few legal =
    let l = length tokens in
    let n = block_count l size in
    let first = to_le 4 (u32 l) in
    let second = to_le 4 (u32 n) in
    let body = encode_blocks n size tokens in
    let fits = block_count-Fits l size h in
    let few_blocks : n ≤ l = Fits-le n size l h fits in
    let at_first = u32_at-append [] (second ++ body) l 0 refl (omega arith) in
    let at_second = u32_at-append first body n 4 (sym (word_length l)) (omega arith) in
    let start : length (first ++ second) ≡ 8 =
      omega (arith, length-append {0} first second, word_length l, word_length n) in
    rw (at_first, at_second)
      (subst (λ b. decode_blocks n b 8 [] ≡ some tokens) (append_assoc first second body)
        (subst (λ k. decode_blocks n ((first ++ second) ++ body) k [] ≡ some tokens) start
          (decode_blocks-encode_blocks n size (first ++ second) tokens [] h fits few legal)))
