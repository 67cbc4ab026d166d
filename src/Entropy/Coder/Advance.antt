-- ===== src/Entropy/Coder/Advance.antt =====
-- The arithmetic of one symbol: the decoder's step undoes the encoder's.
use nexcomp.Base.{ℕ, ◌+◌, ◌*◌, ◌/◌, ◌%◌, ◌^◌, ◌≤◌, ◌<◌, ◌≡◌, arith}
use native.Mathlib.Nat.{div-add-mod, mod-lt, le-div_iff_mul-le, div-lt_iff_lt-mul}
use nexcomp.Base.Bits.{bit_and, bit_and_mask}
use nexcomp.Entropy.Table.{rans_l, total}
use nexcomp.Entropy.Coder.{advance, retreat}

-- The encoder's state between symbols.
abbrev pub InRange : ℕ → Type 0
InRange x = (rans_l ≤ x) × (x < 2 ^ 28)

-- A symbol's slots lie within the table.
abbrev pub IsSlot : ℕ → ℕ → Type 0
IsSlot freq cumul = (0 < freq) × (cumul + freq ≤ total)

-- A renormalized state.
abbrev pub IsReady : ℕ → ℕ → Type 0
IsReady freq y = (256 * freq ≤ y) × (y < 65536 * freq)

module _ (freq cumul y : ℕ) (slot : IsSlot freq cumul) (ready : IsReady freq y) where
  quotient_bounds : (256 ≤ y / freq) × (y / freq < 65536)
  quotient_bounds = ((le-div_iff_mul-le slot.0).1 ready.0, (div-lt_iff_lt-mul slot.0).1 ready.1)

  pub advance-InRange : InRange (advance freq cumul y)
  unfolding advance
  advance-InRange =
      let (lo, hi) = quotient_bounds in
      let m : y % freq < freq = mod-lt y slot.0 in (omega arith, omega arith)

  pub advance_slot :
      (cumul ≤ bit_and (advance freq cumul y) 0xfff)
      × (bit_and (advance freq cumul y) 0xfff < cumul + freq)
  unfolding advance
  advance_slot =
      let m : y % freq < freq = mod-lt y slot.0 in
      rw (bit_and_mask 12 (y / freq * total + cumul + y % freq)) (omega arith, omega arith)

  pub retreat-advance : retreat freq cumul (advance freq cumul y) ≡ y
  unfolding advance retreat
  retreat-advance =
      let m : y % freq < freq = mod-lt y slot.0 in
      let high : (y / freq * total + cumul + y % freq) / 2 ^ 12 ≡ y / freq = omega arith in
      let low : (y / freq * total + cumul + y % freq) % 2 ^ 12 ≡ cumul + y % freq = omega arith in
      rw (bit_and_mask 12 (y / freq * total + cumul + y % freq), high, low)
        (omega (arith, div-add-mod y freq))
