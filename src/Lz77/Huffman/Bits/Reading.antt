-- ===== src/Lz77/Huffman/Bits/Reading.antt =====
-- What a reader has left, as a number: the bits to come, the next one lowest.
use nexcomp.Base.{
  ℕ, zero, suc, ◌+◌, ◌-◌, ◌*◌, ◌/◌, ◌%◌, ◌^◌, ◌<◌, ◌≤◌, ◌≡◌, refl, sym, ap, ◌∙◌, arith, true, false,
  ◌⊎◌, inl, inr, Bool-cases, length, get_or, drop, drop-cons, drop_all, ltb, ltb→le, [], ◌∷◌,
}
use nexcomp.Base.Words.{Bytes, IsBytes, u32, of_le}
use nexcomp.Base.Bits.{bit_and_mask, bit_or_low}
use nexcomp.Base.Powers.{pow-add, pow-split, pow-pos, pow-le, div-pow-lt}
use native.Mathlib.Nat.{mul_assoc, mod-eq_of_lt, add-mul-mod_self_left, add-mul-div_left}
use nexcomp.Lz77.Huffman.Bits.{
  BitReader, new_reader, load_byte, wants, consume, ensure_loop, ensure_bits, read_bits,
}

abbrev pub remaining : BitReader → ℕ
remaining r = r.current + 2 ^ r.bits_in * of_le (drop r.pos r.bytes)

-- The bits to come that the data has.
abbrev pub available : BitReader → ℕ
available r = r.bits_in + 8 * (length r.bytes - r.pos)

pub record IsReader (r : BitReader) : Type 0 where
  pub fits : r.current < 2 ^ r.bits_in
  pub room : r.bits_in ≤ 32
  pub bytes : IsBytes r.bytes

pub get_or-IsByte : (bs : Bytes) (i : ℕ) → IsBytes bs → get_or bs i 0 < 256
get_or-IsByte [] i h = omega arith
get_or-IsByte (b ∷ bs) zero h = h.0
get_or-IsByte (b ∷ bs) (suc i) h = get_or-IsByte bs i h.1

byte_fits : (b p : ℕ) → b < 256 → p ≤ 2 ^ 24 → b * p < 2 ^ 32
byte_fits b p h k = grind arith

byte_below : (c p b : ℕ) → c < p → b < 256 → c + b * p < p * 256
byte_below c p b h k = grind arith

module _ (r : BitReader) (v : IsReader r) (room : r.bits_in < 25)
    (more : r.pos < length r.bytes) where
  loaded : (load_byte r).current ≡ r.current + get_or r.bytes r.pos 0 * 2 ^ r.bits_in
  loaded =
      let b = get_or r.bytes r.pos 0 in
      let small : b * 2 ^ r.bits_in < 2 ^ 32 =
        byte_fits b (2 ^ r.bits_in) (get_or-IsByte r.bytes r.pos v.bytes)
          (pow-le r.bits_in 24 (omega arith)) in
      let whole : u32 (b * 2 ^ r.bits_in) ≡ b * 2 ^ r.bits_in = mod-eq_of_lt small in
      rw whole (bit_or_low r.bits_in b r.current v.fits)

  load_byte-remaining : remaining (load_byte r) ≡ remaining r
  load_byte-remaining =
      let rest = of_le (drop (r.pos + 1) r.bytes) in
      let first : of_le (drop r.pos r.bytes) ≡ get_or r.bytes r.pos 0 + 256 * rest =
        ap of_le (drop-cons r.pos r.bytes 0 more) ∙ unfold of_le in refl in
      rw (loaded, first, pow-add 2 r.bits_in 8)
        (join_byte r.current (get_or r.bytes r.pos 0) (2 ^ r.bits_in) rest)
    where
      join_byte : (c b p s : ℕ) → c + b * p + p * 256 * s ≡ c + p * (b + 256 * s)
      join_byte c b p s = grind arith

  load_byte-IsReader : IsReader (load_byte r)
  load_byte-IsReader = record {
    fits =
        rw (loaded, pow-add 2 r.bits_in 8)
          (byte_below r.current (2 ^ r.bits_in) (get_or r.bytes r.pos 0) v.fits
            (get_or-IsByte r.bytes r.pos v.bytes));
    room = omega arith;
    bytes = v.bytes;
  }

-- A step that loads bits and keeps what is left.
pub record Loads (need : ℕ) (r full : BitReader) : Type 0 where
  pub same_remaining : remaining full ≡ remaining r
  pub same_available : available full ≡ available r
  pub reader : IsReader full
  pub enough : (need ≤ full.bits_in) ⊎ (length full.bytes ≤ full.pos)

ensure_more :
    (fuel need : ℕ) (r : BitReader)
    → wants need r ≡ true
    → ensure_loop (suc fuel) need r ≡ ensure_loop fuel need (load_byte r)
unfolding ensure_loop
ensure_more fuel need r t = rw (t, ensure_loop) refl

ensure_done :
    (fuel need : ℕ) (r : BitReader) → wants need r ≡ false → ensure_loop (suc fuel) need r ≡ r
unfolding ensure_loop
ensure_done fuel need r t = rw (t, ensure_loop) refl

ensure_zero : (need : ℕ) (r : BitReader) → ensure_loop 0 need r ≡ r
unfolding ensure_loop
ensure_zero need r = refl

wants-true :
    (need : ℕ) (r : BitReader) → wants need r ≡ true → (r.bits_in < 25) × (r.pos < length r.bytes)
wants-true need r t = (ground arith, ground arith)

wants-false :
    (need : ℕ) (r : BitReader)
    → need ≤ 25
    → wants need r ≡ false
    → (need ≤ r.bits_in) ⊎ (length r.bytes ≤ r.pos)
wants-false need r h t = elim (Bool-cases (ltb r.pos (length r.bytes))) [
  | inl m ↦ inl (ground arith)
  | inr m ↦ inr (ltb→le r.pos (length r.bytes) m)
]

ensure_loop-Loads :
    (fuel need : ℕ) (r : BitReader)
    → need ≤ 25
    → 25 ≤ r.bits_in + 8 * fuel
    → IsReader r
    → Loads need r (ensure_loop fuel need r)
ensure_loop-Loads zero need r small h v = rw (ensure_zero need r) (record {
  same_remaining = refl;
  same_available = refl;
  reader = v;
  enough = inl (omega arith);
})
ensure_loop-Loads (suc fuel) need r small h v = elim (Bool-cases (wants need r)) [
  | inl t ↦
      let (room, more) = wants-true need r t in
      let ih =
        ensure_loop-Loads fuel need (load_byte r) small (omega arith)
          (load_byte-IsReader r v room more) in
      rw (ensure_more fuel need r t) (record {
        same_remaining = ih.same_remaining ∙ load_byte-remaining r v room more;
        same_available = ih.same_available ∙ omega arith;
        reader = ih.reader;
        enough = ih.enough;
      })
  | inr t ↦ rw (ensure_done fuel need r t) (record {
    same_remaining = refl;
    same_available = refl;
    reader = v;
    enough = wants-false need r small t;
  })
]

pub ensure_bits-Loads :
    (r : BitReader) (need : ℕ) → need ≤ 25 → IsReader r → Loads need r (ensure_bits r need)
unfolding ensure_bits
ensure_bits-Loads r need small v = ensure_loop-Loads 4 need r small (omega arith) v

-- What lies above `count` bits, if they are loaded or the data ends.
above_bits :
    (r : BitReader) (count : ℕ)
    → (count ≤ r.bits_in) ⊎ (length r.bytes ≤ r.pos)
    → 2 ^ r.bits_in * of_le (drop r.pos r.bytes)
      ≡ 2 ^ count * (2 ^ (r.bits_in - count) * of_le (drop r.pos r.bytes))
above_bits r count (inl h) =
    rw (pow-split count r.bits_in h)
      (mul_assoc (2 ^ count) (2 ^ (r.bits_in - count)) (of_le (drop r.pos r.bytes)))
above_bits r count (inr h) =
    let nothing : of_le (drop r.pos r.bytes) ≡ 0 =
      ap of_le (drop_all r.pos r.bytes h) ∙ unfold of_le in refl in
    rw nothing (omega arith)

-- Taking bits away.
pub consume-IsReader : (r : BitReader) (count : ℕ) → IsReader r → IsReader (consume r count)
consume-IsReader r count v = record {
  fits = div-pow-lt r.current r.bits_in count v.fits;
  room = omega (arith, v.room);
  bytes = v.bytes;
}

pub consume-remaining :
    (r : BitReader) (count : ℕ)
    → (count ≤ r.bits_in) ⊎ (length r.bytes ≤ r.pos)
    → remaining (consume r count) ≡ remaining r / 2 ^ count
consume-remaining r count enough = rw (above_bits r count enough) (
    sym (
      add-mul-div_left r.current (2 ^ (r.bits_in - count) * of_le (drop r.pos r.bytes))
        (pow-pos count)))

-- The low bits that are loaded are the next bits.
pub loaded_bits :
    (r : BitReader) (count : ℕ)
    → (count ≤ r.bits_in) ⊎ (length r.bytes ≤ r.pos)
    → r.current % 2 ^ count ≡ remaining r % 2 ^ count
loaded_bits r count enough = rw (above_bits r count enough) (
    sym (
      add-mul-mod_self_left r.current (2 ^ count)
        (2 ^ (r.bits_in - count) * of_le (drop r.pos r.bytes))))

-- A step that takes `count` bits.
pub record Takes (count : ℕ) (r next : BitReader) : Type 0 where
  pub remaining_lem : remaining next ≡ remaining r / 2 ^ count
  pub available_lem : available next ≡ available r - count
  pub reader : IsReader next

pub consume-Takes :
    (need count : ℕ) (r full : BitReader)
    → Loads need r full
    → (count ≤ full.bits_in) ⊎ (length full.bytes ≤ full.pos)
    → Takes count r (consume full count)
consume-Takes need count r full l enough = record {
  remaining_lem = consume-remaining full count enough ∙ ap (λ t. t / 2 ^ count) l.same_remaining;
  available_lem = left full enough ∙ ap (λ t. t - count) l.same_available;
  reader = consume-IsReader full count l.reader;
}
  where
    left :
        (f : BitReader)
        → (count ≤ f.bits_in) ⊎ (length f.bytes ≤ f.pos)
        → available (consume f count) ≡ available f - count
    left f (inl h) = omega arith
    left f (inr h) = omega arith

-- Reading gives the next bits, with zeros past the end of the data.
pub read_bits_lem :
    (r : BitReader) (count : ℕ)
    → count ≤ 25
    → IsReader r
    → ((read_bits r count).0 ≡ remaining r % 2 ^ count) × Takes count r (read_bits r count).1
unfolding read_bits
read_bits_lem r count small v =
    let l = ensure_bits-Loads r count small v in
    let full = ensure_bits r count in
    let mask : u32 (2 ^ count) ≡ 2 ^ count = mod-eq_of_lt (omega (arith, pow-le count 25 small)) in
    (
      rw mask (
          bit_and_mask count full.current
          ∙ loaded_bits full count l.enough
          ∙ ap (λ t. t % 2 ^ count) l.same_remaining),
      consume-Takes count count r full l l.enough,
    )

pub new_reader-remaining : (bytes : Bytes) → remaining (new_reader bytes) ≡ of_le bytes
new_reader-remaining bytes = omega arith

pub new_reader-IsReader : (bytes : Bytes) → IsBytes bytes → IsReader (new_reader bytes)
new_reader-IsReader bytes h = record { fits = omega arith; room = omega arith; bytes = h }
