-- ===== src/Codecs/Bcj.antt =====
-- src/codecs/bcj_filter.rs: relative CALL and JMP targets of x86 code made absolute, and back.
pub mod RoundTrip
use nexcomp.Base.{
  ℕ, ◌+◌, ◌-◌, ◌^◌, Bool, true, false, List, [], ◌∷◌, ◌++◌, ◌&&◌, ◌||◌, ◌==◌, ltb, leb,
  if◌then◌else◌, length, take, drop,
}
use nexcomp.Base.Words.{Bytes, u32, to_le, of_le}

abbrev pub is_branch : ℕ → Bool
is_branch op = op == 0xe8 || op == 0xe9

-- `wrapping_add` and `wrapping_sub` of an `i32` and `i as i32`, on the bit patterns.
abbrev pub to_absolute : ℕ → ℕ → ℕ
to_absolute i rel = u32 (rel + u32 i)

abbrev pub to_relative : ℕ → ℕ → ℕ
to_relative i abs = u32 (abs + 2 ^ 32 - u32 i)

-- The loop of both directions at `i`, on `out[i..]`: an opcode with four bytes behind it has them
-- replaced and the loop goes on behind them; with less than five bytes left it ends.
pub convert : (ℕ → ℕ → ℕ) → ℕ → Bytes → Bytes
convert target i (op ∷ b0 ∷ b1 ∷ b2 ∷ b3 ∷ rest) =
    let old = of_le (b0 ∷ b1 ∷ b2 ∷ b3 ∷ []) in
    let replaced = op ∷ (to_le 4 (target i old) ++ convert target (i + 5) rest) in
    let kept = op ∷ convert target (i + 1) (b0 ∷ b1 ∷ b2 ∷ b3 ∷ rest) in
    if is_branch op then replaced else kept
convert target i [] = []
convert target i rest = rest

unfoldable pub bcj_encode : Bytes → Bytes
unfolding convert
bcj_encode bytes = convert to_absolute 0 bytes

pub bcj_decode : Bytes → Bytes
unfolding convert
bcj_decode bytes = convert to_relative 0 bytes

-- The float arithmetic that the heuristics use: the quotient of two counts, decimal constants, and
-- the comparison.
pub record Floats (F : Type 0) : Type 0 where
  pub quotient : ℕ → ℕ → F
  pub decimal : ℕ → ℕ → F
  pub lt : F → F → Bool

unfoldable pub starts_with : Bytes → Bytes → Bool
starts_with bytes [] = true
starts_with [] (p ∷ prefix) = false
starts_with (b ∷ bytes) (p ∷ prefix) = b == p && starts_with bytes prefix

count_branches : Bytes → ℕ
count_branches [] = 0
count_branches (b ∷ bytes) = (if is_branch b then 1 else 0) + count_branches bytes

-- A COFF object file of i386 or x86-64 with 1 to 199 sections.
is_coff : Bytes → Bool
is_coff bytes =
    let machine = of_le (take 2 bytes) in
    let num_sections = of_le (take 2 (drop 2 bytes)) in
    leb 20 (length bytes)
    && (machine == 0x014c || machine == 0x8664)
    && ltb 0 num_sections
    && ltb num_sections 200

has_executable_magic : Bytes → Bool
unfolding starts_with
has_executable_magic bytes =
    starts_with bytes (0x7f ∷ 0x45 ∷ 0x4c ∷ 0x46 ∷ [])
    || starts_with bytes (0x4d ∷ 0x5a ∷ [])
    || starts_with bytes (0xcf ∷ 0xfa ∷ 0xed ∷ 0xfe ∷ [])
    || starts_with bytes (0xce ∷ 0xfa ∷ 0xed ∷ 0xfe ∷ [])
    || starts_with bytes (0xfe ∷ 0xed ∷ 0xfa ∷ 0xcf ∷ [])
    || starts_with bytes (0xfe ∷ 0xed ∷ 0xfa ∷ 0xce ∷ [])

module _ {F : Type 0} (f : Floats F) where
  -- The `decimal m k` is m / 10 ^ k.
  pub is_likely_x86 : Bytes → Bool
  unfolding has_executable_magic is_coff count_branches
  is_likely_x86 bytes =
      let ratio = f.quotient (count_branches bytes) (length bytes) in
      if ltb (length bytes) 100
      then false
      else if has_executable_magic bytes || is_coff bytes
      then true
      else f.lt (f.decimal 1 2) ratio && f.lt ratio (f.decimal 10 2)
