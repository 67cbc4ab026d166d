-- ===== src/Entropy/Table.antt =====
-- The frequency tables of src/entropy/mod.rs: `build_table` and `build_decode_table`.
pub mod Slots
use nexcomp.Base.{
  ℕ, zero, suc, ◌+◌, ◌*◌, ◌^◌, ◌≤◌, Bool, true, false, ◌&&◌, List, [], ◌∷◌, ◌==◌, ltb, leb,
  if◌then◌else◌, length, get_or, Result, ok, err,
}
use nexcomp.Base.Words.{u8, u32}

abbrev pub scale_bits : ℕ
scale_bits = 12

-- TOTAL
abbrev pub total : ℕ
total = 4096

-- RANS_L
abbrev pub rans_l : ℕ
rans_l = 1048576

pub data RansError : Type 0 where
  invalid_frequency_sum : ℕ → RansError
  symbol_out_of_range : ℕ → ℕ → RansError
  empty_input decode_underflow : RansError
  zero_frequency : ℕ → RansError

pub record RansTable : Type 0 where
  pub freq : List ℕ
  pub cumul : List ℕ
  pub alphabet_size : ℕ

-- `spread` as a function of the slot.
pub record RansDecodeTable : Type 0 where
  pub spread : ℕ → ℕ
  pub table : RansTable

abbrev pub sum : List ℕ → ℕ
sum [] = 0
sum (f ∷ freqs) = f + sum freqs

-- The sums of all prefixes behind `last`, in 32 bits.
unfoldable pub accumulate : ℕ → List ℕ → List ℕ
accumulate last [] = last ∷ []
accumulate last (f ∷ freqs) = last ∷ accumulate (u32 (last + f)) freqs

unfoldable pub build_table : List ℕ → Result RansError RansTable
build_table freqs =
    if u32 (sum freqs) == total
    then ok (record { freq = freqs; cumul = accumulate 0 freqs; alphabet_size = length freqs })
    else err (invalid_frequency_sum (u32 (sum freqs)))

-- One symbol fills the slots from `start` up to `end`.
pub fill : ℕ → ℕ → ℕ → (ℕ → ℕ) → ℕ → ℕ
fill s start end spread i = if leb start i && ltb i end then u8 s else spread i

-- The first `n` symbols fill their slots, in order.
pub fill_symbols : ℕ → List ℕ → ℕ → ℕ
unfolding fill
fill_symbols zero cumul i = 0
fill_symbols (suc s) cumul i =
    fill s (get_or cumul s 0) (get_or cumul (suc s) 0) (fill_symbols s cumul) i

unfoldable pub build_decode_table : RansTable → RansDecodeTable
build_decode_table table = record {
  spread = fill_symbols table.alphabet_size table.cumul;
  table = table;
}
