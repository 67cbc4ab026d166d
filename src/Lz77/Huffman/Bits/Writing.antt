-- ===== src/Lz77/Huffman/Bits/Writing.antt =====
-- What a writer holds, as a number: the bits that were written, the first one lowest.
use nexcomp.Base.{
  ℕ, zero, suc, ◌+◌, ◌-◌, ◌*◌, ◌/◌, ◌%◌, ◌^◌, ◌<◌, ◌≤◌, ◌≡◌, refl, sym, ap, ◌∙◌, arith, true, false,
  [], ◌∷◌, ◌++◌, inl, inr, Bool-cases, length, length-append, All-append, leb, leb→le, leb→gt, ltb,
  ltb→le, ltb→lt,
}
use nexcomp.Base.Words.{Bytes, IsByte, IsBytes, u8, u32, of_le}
use nexcomp.Base.Bits.{bit_or_low}
use nexcomp.Base.Powers.{pow-add, pow-split, pow-pos, pow-le}
use native.Mathlib.Nat.{pow-suc, pow-zero, mul_assoc, mod-eq_of_lt}
use nexcomp.Lz77.Huffman.Bits.{
  BitWriter, new_writer, push_byte, flush, write_bits, finish, bit_count,
}

-- The weight of the next bit.
abbrev pub scale : BitWriter → ℕ
scale w = 256 ^ length w.buffer * 2 ^ w.bits_in

abbrev pub content : BitWriter → ℕ
content w = of_le w.buffer + 256 ^ length w.buffer * w.current

pub record IsWriter (w : BitWriter) : Type 0 where
  pub fits : w.current < 2 ^ w.bits_in
  pub bytes : IsBytes w.buffer

pub of_le-append : (xs ys : Bytes) → of_le (xs ++ ys) ≡ of_le xs + 256 ^ length xs * of_le ys
unfolding of_le
of_le-append [] ys = rw (pow-zero 256) (omega arith)
of_le-append (x ∷ xs) ys = rw (of_le-append xs ys, pow-suc 256 (length xs)) (grind arith)

of_le-snoc : (xs : Bytes) (b : ℕ) → of_le (xs ++ (b ∷ [])) ≡ of_le xs + 256 ^ length xs * b
of_le-snoc xs b =
    let one : of_le (b ∷ []) ≡ b = unfold of_le in omega arith in
    of_le-append xs (b ∷ []) ∙ rw one refl

length-snoc : (xs : Bytes) (b : ℕ) → length (xs ++ (b ∷ [])) ≡ suc (length xs)
length-snoc xs b = omega (arith, length-append {0} xs (b ∷ []))

join_byte : (n c : ℕ) → n * (c % 256) + n * 256 * (c / 256) ≡ n * c
join_byte n c =
    let e : c % 256 + 256 * (c / 256) ≡ c = omega arith in grind (arith, ap (λ t. n * t) e)

push_byte-content : (w : BitWriter) → content (push_byte w) ≡ content w
push_byte-content w =
    rw
      (
        of_le-snoc w.buffer (u8 w.current),
        length-snoc w.buffer (u8 w.current),
        pow-suc 256 (length w.buffer),
      )
      (omega (arith, join_byte (256 ^ length w.buffer) w.current))

push_byte-scale : (w : BitWriter) → 8 ≤ w.bits_in → scale (push_byte w) ≡ scale w
push_byte-scale w h =
    rw (length-snoc w.buffer (u8 w.current), pow-suc 256 (length w.buffer), pow-split 8 w.bits_in h)
      (mul_assoc (256 ^ length w.buffer) 256 (2 ^ (w.bits_in - 8)))

push_byte-size : (w : BitWriter) → 8 ≤ w.bits_in → bit_count (push_byte w) ≡ bit_count w
unfolding bit_count
push_byte-size w h = omega (arith, length-snoc w.buffer (u8 w.current))

push_byte-IsWriter : (w : BitWriter) → 8 ≤ w.bits_in → IsWriter w → IsWriter (push_byte w)
push_byte-IsWriter w h v = record {
  fits = omega (arith, pow-split 8 w.bits_in h, v.fits);
  bytes = All-append IsByte w.buffer (u8 w.current ∷ []) v.bytes (omega arith, tt);
}

-- A writer between two calls.
pub record IsFlushed (w : BitWriter) : Type 0 where
  pub writer : IsWriter w
  pub few : w.bits_in < 8

-- A step from one writer to another that keeps the number.
record Keeps (w r : BitWriter) : Type 0 where
  same_content : content r ≡ content w
  same_scale : scale r ≡ scale w
  same_size : bit_count r ≡ bit_count w
  flushed : IsFlushed r

flush_more :
    (fuel : ℕ) (w : BitWriter)
    → leb 8 w.bits_in ≡ true
    → flush (suc fuel) w ≡ flush fuel (push_byte w)
unfolding flush
flush_more fuel w t = rw (t, flush) refl

flush_done : (fuel : ℕ) (w : BitWriter) → leb 8 w.bits_in ≡ false → flush (suc fuel) w ≡ w
unfolding flush
flush_done fuel w t = rw (t, flush) refl

flush_zero : (w : BitWriter) → flush 0 w ≡ w
unfolding flush
flush_zero w = refl

-- Flushing moves bits to the buffer and keeps the number.
flush-Keeps :
    (fuel : ℕ) (w : BitWriter) → w.bits_in < 8 * fuel + 8 → IsWriter w → Keeps w (flush fuel w)
flush-Keeps zero w h v = rw (flush_zero w) (record {
  same_content = refl;
  same_scale = refl;
  same_size = refl;
  flushed = record { writer = v; few = omega arith };
})
flush-Keeps (suc fuel) w h v = elim (Bool-cases (leb 8 w.bits_in)) [
  | inl t ↦
      let full : 8 ≤ w.bits_in = leb→le 8 w.bits_in t in
      let ih = flush-Keeps fuel (push_byte w) (omega arith) (push_byte-IsWriter w full v) in
      rw (flush_more fuel w t) (record {
        same_content = ih.same_content ∙ push_byte-content w;
        same_scale = ih.same_scale ∙ push_byte-scale w full;
        same_size = ih.same_size ∙ push_byte-size w full;
        flushed = ih.flushed;
      })
  | inr t ↦ rw (flush_done fuel w t) (record {
    same_content = refl;
    same_scale = refl;
    same_size = refl;
    flushed = record { writer = v; few = omega (arith, leb→gt 8 w.bits_in t) };
  })
]

shifted_fits : (v b c : ℕ) → v < 2 ^ c → v * 2 ^ b + 2 ^ b ≤ 2 ^ (b + c)
shifted_fits v b c h = rw (pow-add 2 b c) (grind arith)

join_value : (n c p v b : ℕ) → b + n * (c + v * p) ≡ b + n * c + n * p * v
join_value n c p v b = grind arith

-- A step that puts a value above what the writer holds.
pub record Appends (w r : BitWriter) (value count : ℕ) : Type 0 where
  pub content_lem : content r ≡ content w + scale w * value
  pub scale_lem : scale r ≡ scale w * 2 ^ count
  pub size_lem : bit_count r ≡ bit_count w + count
  pub flushed : IsFlushed r

added_size :
    (w : BitWriter) (count : ℕ)
    → length w.buffer * 8 + (w.bits_in + count) ≡ length w.buffer * 8 + w.bits_in + count
added_size w count = omega arith

-- Between two calls, writing a value that fits its number of bits, at most 24, puts it above what the
-- writer holds, and leaves fewer than 8 bits pending.
pub write_bits-Appends :
    (w : BitWriter) (value count : ℕ)
    → count ≤ 24
    → value < 2 ^ count
    → IsFlushed w
    → Appends w (write_bits w value count) value count
unfolding write_bits bit_count
write_bits-Appends w value count small fits v =
    let few = v.few in
    let low = v.writer.fits in
    let room = shifted_fits value w.bits_in count fits in
    let bound : 2 ^ (w.bits_in + count) ≤ 2 ^ 32 = pow-le (w.bits_in + count) 32 (omega arith) in
    let whole : u32 (value * 2 ^ w.bits_in) ≡ value * 2 ^ w.bits_in =
      mod-eq_of_lt (omega (arith, pow-pos w.bits_in)) in
    let size : u8 (w.bits_in + count) ≡ w.bits_in + count = omega arith in
    let joined : BitWriter = record {
      buffer = w.buffer;
      current = w.current + value * 2 ^ w.bits_in;
      bits_in = w.bits_in + count;
    } in
    let k =
      flush-Keeps 32 joined (omega arith) (record { fits = omega arith; bytes = v.writer.bytes }) in
    rw (whole, size, bit_or_low w.bits_in value w.current low)
      (record {
        content_lem =
            k.same_content
            ∙ join_value (256 ^ length w.buffer) w.current (2 ^ w.bits_in) value (of_le w.buffer);
        scale_lem =
            k.same_scale
            ∙ rw (pow-add 2 w.bits_in count)
                (sym (mul_assoc (256 ^ length w.buffer) (2 ^ w.bits_in) (2 ^ count)));
        size_lem = k.same_size ∙ added_size w count;
        flushed = k.flushed;
      })

pub new_writer-IsFlushed : IsFlushed new_writer
new_writer-IsFlushed = record {
  writer = record { fits = omega arith; bytes = tt };
  few = omega arith;
}

pub new_writer-size : bit_count new_writer ≡ 0
unfolding bit_count
new_writer-size = omega arith

pub new_writer-content : content new_writer ≡ 0
unfolding of_le
new_writer-content = refl

-- The bytes of a finished writer are its number, with zeros above.
pub of_le-finish : (w : BitWriter) → IsFlushed w → of_le (finish w) ≡ content w
unfolding finish
of_le-finish w v = elim (Bool-cases (ltb 0 w.bits_in)) [
  | inl t ↦
      let small : 2 ^ w.bits_in ≤ 2 ^ 8 = pow-le w.bits_in 8 (omega (arith, v.few)) in
      let byte : u8 w.current ≡ w.current = omega (arith, v.writer.fits) in
      rw (t, byte) (of_le-snoc w.buffer w.current)
  | inr t ↦
      let nothing : w.bits_in ≡ 0 = omega (arith, ltb→le 0 w.bits_in t) in
      let one : 2 ^ w.bits_in ≡ 1 = ap (λ (k : ℕ). 2 ^ k) nothing in
      let empty : w.current ≡ 0 = omega (arith, v.writer.fits) in rw t (rw empty (omega arith))
]

pub finish-IsBytes : (w : BitWriter) → IsFlushed w → IsBytes (finish w)
unfolding finish
finish-IsBytes w v = elim (Bool-cases (ltb 0 w.bits_in)) [
  | inl t ↦ rw t (All-append IsByte w.buffer (u8 w.current ∷ []) v.writer.bytes (omega arith, tt))
  | inr t ↦ rw t v.writer.bytes
]

-- A finished writer has room for all its bits.
pub length-finish : (w : BitWriter) → IsFlushed w → bit_count w ≤ 8 * length (finish w)
unfolding finish bit_count
length-finish w v = elim (Bool-cases (ltb 0 w.bits_in)) [
  | inl t ↦ rw t (omega (arith, length-snoc w.buffer (u8 w.current), v.few))
  | inr t ↦ rw t (omega (arith, ltb→le 0 w.bits_in t))
]

-- It has no more bytes than they need.
pub length-finish_le : (w : BitWriter) → IsFlushed w → 8 * length (finish w) ≤ bit_count w + 7
unfolding finish bit_count
length-finish_le w v = elim (Bool-cases (ltb 0 w.bits_in)) [
  | inl t ↦ rw t (omega (arith, length-snoc w.buffer (u8 w.current), ltb→lt 0 w.bits_in t))
  | inr t ↦ rw t (omega arith)
]

pub new_writer-scale : (n : ℕ) → scale new_writer * n ≡ n
new_writer-scale n = omega arith
