-- ===== src/Lz77/Huffman/Bits.antt =====
-- `BitWriter` and `BitReader` of src/lz77/huffman.rs. The first bit is the lowest one.
pub mod Writing
pub mod Reading
pub mod Transfer
use nexcomp.Base.{
  ℕ, zero, suc, ◌+◌, ◌-◌, ◌*◌, ◌/◌, ◌^◌, Bool, true, false, Option, none, some, ◌&&◌, [], ◌∷◌, ◌++◌,
  length, get_or, ltb, leb, if◌then◌else◌,
}
use nexcomp.Base.Words.{Bytes, u8, u32}
use nexcomp.Base.Bits.{bit_and, bit_or}

pub record BitWriter : Type 0 where
  pub buffer : Bytes
  pub current : ℕ
  pub bits_in : ℕ

abbrev pub new_writer : BitWriter
new_writer = record { buffer = []; current = 0; bits_in = 0 }

-- One round of the loop: the lowest byte of `current` goes to the buffer.
abbrev pub push_byte : BitWriter → BitWriter
push_byte w = record {
  buffer = w.buffer ++ (u8 w.current ∷ []);
  current = w.current / 2 ^ 8;
  bits_in = w.bits_in - 8;
}

-- `while self.bits_in >= 8`, for at most as many rounds as the fuel.
unfoldable pub flush : ℕ → BitWriter → BitWriter
flush zero w = w
flush (suc fuel) w = elim (leb 8 w.bits_in) [ true ↦ flush fuel (push_byte w) | false ↦ w ]

-- `bits_in` is a `u8`, so that 32 rounds leave fewer than 8 bits.
unfoldable pub write_bits : BitWriter → ℕ → ℕ → BitWriter
write_bits w value count = flush 32 (record {
  buffer = w.buffer;
  current = bit_or w.current (u32 (value * 2 ^ w.bits_in));
  bits_in = u8 (w.bits_in + count);
})

unfoldable pub finish : BitWriter → Bytes
finish w = if ltb 0 w.bits_in then w.buffer ++ (u8 w.current ∷ []) else w.buffer

unfoldable pub bit_count : BitWriter → ℕ
bit_count w = length w.buffer * 8 + w.bits_in

-- `data` is the field `bytes`.
pub record BitReader : Type 0 where
  pub bytes : Bytes
  pub pos : ℕ
  pub current : ℕ
  pub bits_in : ℕ

abbrev pub new_reader : Bytes → BitReader
new_reader bytes = record { bytes = bytes; pos = 0; current = 0; bits_in = 0 }

abbrev pub load_byte : BitReader → BitReader
load_byte r = record {
  bytes = r.bytes;
  pos = r.pos + 1;
  current = bit_or r.current (u32 (get_or r.bytes r.pos 0 * 2 ^ r.bits_in));
  bits_in = r.bits_in + 8;
}

abbrev pub wants : ℕ → BitReader → Bool
wants need r = ltb r.bits_in need && (ltb r.bits_in 25 && ltb r.pos (length r.bytes))

unfoldable pub ensure_loop : ℕ → ℕ → BitReader → BitReader
ensure_loop zero need r = r
ensure_loop (suc fuel) need r = elim (wants need r) [
  | true ↦ ensure_loop fuel need (load_byte r)
  | false ↦ r
]

-- Each round adds 8 bits and the loop ends at 25 bits, so that 4 rounds are enough.
unfoldable pub ensure_bits : BitReader → ℕ → BitReader
unfolding ensure_loop
ensure_bits r need = ensure_loop 4 need r

-- `current >>= count` with `bits_in` reduced, not below zero.
abbrev pub consume : BitReader → ℕ → BitReader
consume r count = record r { current = r.current / 2 ^ count; bits_in = r.bits_in - count }

unfoldable pub read_bits : BitReader → ℕ → ℕ × BitReader
unfolding ensure_bits
read_bits r count =
    let full = ensure_bits r count in
    (bit_and full.current (u32 (2 ^ count) - 1), consume full count)

-- Code that reads from a `&mut BitReader` and may give up.
abbrev pub Reader : Type 0 → Type 0
Reader A = BitReader → Option (A × BitReader)

infixl 5 ◌>>=◌
abbrev pub ◌>>=◌ : {A B : Type 0} → Reader A → (A → Reader B) → Reader B
◌>>=◌ m f r = elim (m r) [ none ↦ none | some (a, r') ↦ f a r' ]

abbrev pub pure : {A : Type 0} → A → Reader A
pure a r = some (a, r)

unfoldable pub read : ℕ → Reader ℕ
read count r = some (read_bits r count)
