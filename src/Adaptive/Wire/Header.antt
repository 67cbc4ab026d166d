-- ===== src/Adaptive/Wire/Header.antt =====
-- The fields of a block's header are read back from its bytes.
use nexcomp.Base.{
  ℕ, ◌+◌, ◌-◌, ◌*◌, ◌^◌, ◌≤◌, ◌<◌, min, ◌≡◌, refl, ap, ◌∙◌, arith, Bool, true, false, some, [], ◌∷◌,
  ◌++◌, ◌==◌, le→leb, eq→==, if◌then◌else◌, if-true, length, length-append, drop,
  take-append_length, ok,
}
use nexcomp.Base.Words.{Bytes, to_le, of_le-to_le}
use nexcomp.Adaptive.{CodecId, lz77_huffman, to_u8, from_u8, block_size, block_header_len}
use nexcomp.Adaptive.Crc.{crc32, crc32-lt}
use nexcomp.Adaptive.Reader.{slice?, read_le, u32_at, slice?-drop, slice?-at}
use nexcomp.Adaptive.Block.{AdaptiveResult}
use nexcomp.Adaptive.Wire.{block_bytes, BlockInfo, parse_block}

from_u8-to_u8 : (codec : CodecId) → from_u8 (to_u8 codec) ≡ some codec
unfolding from_u8 to_u8
from_u8-to_u8 lz77_huffman = refl
from_u8-to_u8 codec = refl

-- The parsed form of a block.
abbrev pub info : AdaptiveResult → Bytes → BlockInfo
info r chunk = record {
  codec = r.codec;
  bcj_applied = r.bcj_applied;
  orig_len = length chunk;
  crc = crc32 chunk;
  bytes = r.compressed;
}

module _ (a b x y z : ℕ) (body tail : Bytes) where
  abbrev framed : Bytes
  framed = a ∷ b ∷ (to_le 4 x ++ (to_le 4 y ++ (to_le 4 z ++ (body ++ tail))))

  field_head : slice? framed 0 2 ≡ some (a ∷ b ∷ [])
  unfolding to_le
  field_head = if-true _ _ (le→leb 2 (length framed) (omega arith))

  field_2 : slice? framed 2 4 ≡ some (to_le 4 x)
  unfolding to_le
  field_2 = if-true _ _ (le→leb 6 (length framed) (omega arith))

  field_6 : slice? framed 6 4 ≡ some (to_le 4 y)
  unfolding to_le
  field_6 = if-true _ _ (le→leb 10 (length framed) (omega arith))

  field_10 : slice? framed 10 4 ≡ some (to_le 4 z)
  unfolding to_le
  field_10 = if-true _ _ (le→leb 14 (length framed) (omega arith))

  field_body : slice? framed 14 (length body) ≡ some body
  unfolding to_le
  field_body =
      if-true _ _
        (le→leb (14 + length body) (length framed) (omega (arith, length-append body tail)))
      ∙ ap some (take-append_length body tail)

-- Reading a word at an offset from `pos`, where the suffix at `pos` is known.
read_word :
    (payload s : Bytes) (pos k n : ℕ)
    → pos ≤ length payload
    → drop pos payload ≡ s
    → slice? s k 4 ≡ some (to_le 4 n)
    → n < 2 ^ 32
    → u32_at payload (pos + k) ≡ ok n
unfolding u32_at read_le
read_word payload s pos k n h e f w =
    rw (slice?-drop payload pos k 4 h, e, f) (ap ok (of_le-to_le 4 n (omega arith)))

read_head :
    (payload s : Bytes) (pos : ℕ) {bytes : Bytes}
    → pos ≤ length payload
    → drop pos payload ≡ s
    → slice? s 0 2 ≡ some bytes
    → read_le 2 payload pos ≡ ok bytes
unfolding read_le
read_head payload s pos h e f = rw (slice?-at payload pos 2 h, e, f) refl

read_body :
    (payload s : Bytes) (pos n : ℕ) {bytes : Bytes}
    → pos ≤ length payload
    → drop pos payload ≡ s
    → slice? s 14 n ≡ some bytes
    → slice? payload (pos + block_header_len) n ≡ some bytes
read_body payload s pos n h e f = slice?-drop payload pos 14 n h ∙ rw (e, f) refl

abbrev flag : Bool → ℕ
flag b = if b then 1 else 0

flag_back : (b : Bool) → (if flag b == 0 then false else true) ≡ b
flag_back true = refl
flag_back false = refl

-- The parser reads back a written block whose length is the one that the layout wants.
pub parse_block-block_bytes :
    (payload tail : Bytes) (orig_len index pos : ℕ) (r : AdaptiveResult) (chunk : Bytes)
    → pos ≤ length payload
    → drop pos payload ≡ block_bytes r chunk ++ tail
    → length chunk ≡ min block_size (orig_len - index * block_size)
    → length r.compressed < 2 ^ 32
    → parse_block payload orig_len index pos
      ≡ ok (info r chunk, pos + block_header_len + length r.compressed)
unfolding block_bytes
parse_block-block_bytes payload tail orig_len index pos r chunk h e layout fits =
    let f = flag r.bcj_applied in
    let c = to_u8 r.codec in
    let x = length chunk in
    let y = length r.compressed in
    let z = crc32 chunk in
    let s = framed c f x y z r.compressed tail in
    let e' : drop pos payload ≡ s = e ∙ (unfold to_le in refl) in
    let same : (x == min block_size (orig_len - index * block_size)) ≡ true = eq→== _ _ layout in
    unfold parse_block in
    rw
      (
        read_head payload s pos h e' (field_head c f x y z r.compressed tail),
        from_u8-to_u8 r.codec,
        read_word payload s pos 2 x h e' (field_2 c f x y z r.compressed tail) (omega arith),
        read_word payload s pos 6 y h e' (field_6 c f x y z r.compressed tail) fits,
        read_word payload s pos 10 z h e' (field_10 c f x y z r.compressed tail) (crc32-lt chunk),
        same,
        read_body payload s pos y h e' (field_body c f x y z r.compressed tail),
        flag_back r.bcj_applied,
      )
      refl

pub length-block_bytes :
    (r : AdaptiveResult) (chunk : Bytes)
    → length (block_bytes r chunk) ≡ block_header_len + length r.compressed
unfolding block_bytes to_le
length-block_bytes r chunk = omega arith
